-- ===== src/Tests/Requests.antt =====
-- Requests of remote users to a provider that is started and stopped.
use phonebook.Base.{ℕ, ◌≡◌, refl, true, false, none, some, String, List, length, [], ◌∷◌, ok, arith}
use phonebook.Common.{success, err_from_mercury, err_invalid_token, err_invalid_phonebook, id_eq}
use phonebook.Backend.Dummy.{Memory, addresses}
use phonebook.Provider.{Provider}
use phonebook.Provider.Configuration.{read_config, configured}
use phonebook.Provider.Register.{ProviderArgs, effective_token}
use phonebook.Remote.{
  serve, Fate, Command, create_command, destroy_command, list_command, hello_command, sum_command,
  Reply, made, freed, listed, greeted, summed, serve_all,
}
use phonebook.Remote.Spec.{Directory, knows, without, make, free, act, unanswered, step, steps}
use phonebook.Remote.Stands.{Stands}
use phonebook.Remote.Answered.{IsGarbage}
use phonebook.Remote.Refines.{serve_all-steps}
use phonebook.Remote.Lifetime.{lifetime, lifetime-steps}
use phonebook.Tests.Libraries.{list_hash, json, allocator, above-ne-null, proc, proc_laws, margo}
use phonebook.Tests.Texts.{texts}
use phonebook.Tests.Fixtures.{
  provider-Owns, id_of, Book, no_memory, provider, memory, provider-Owns,
}
use phonebook.Remote.Sums.{IsSumOf, serve-sum}
use phonebook.Base.Signed.{of_bits, pos, negsuc, ◌+ℤ◌, to_bits}
use phonebook.Remote.Total.{serve_all-returns}
use phonebook.Remote.Loads.{adds, with_entries}
use phonebook.Tests.Setups.{resources, id_of-inj}
use phonebook.Tests.Programs.{garbage}

abbrev fine : Fate
fine = record { created = true; forwarded = true; got_input = true; got_output = true }

-- The answer is lost.
abbrev unheard : Fate
unheard = record fine { got_output = false }

abbrev args : ProviderArgs
args = record { token = some "secret"; config = some "conf"; pool = 0 }

abbrev requests : List (Fate × Command)
requests =
    (fine, create_command (some "secret") (some "dummy") (some "{}") (id_of 2))
    ∷ (unheard, create_command (some "secret") (some "dummy") none (id_of 3))
    ∷ (fine, sum_command (id_of 2) 40 2)
    ∷ (fine, destroy_command (some "guess") (id_of 2))
    ∷ (fine, destroy_command (some "secret") (id_of 2))
    ∷ (fine, sum_command (id_of 2) 40 2)
    ∷ (fine, list_command (some "secret") 5)
    ∷ []

abbrev replies : List Reply
replies =
    made success (some (id_of 2))
    ∷ made err_from_mercury none
    ∷ summed success (some 42)
    ∷ freed err_invalid_token
    ∷ freed success
    ∷ summed err_invalid_phonebook none
    ∷ listed success (some (record { count = 2; ids = id_of 0 ∷ id_of 3 ∷ [] }))
    ∷ []

garbage-IsGarbage : IsGarbage garbage
garbage-IsGarbage = record { id = refl; count = omega arith; result = omega arith }

lifetime-steps_example :
    (w : Memory ℕ) × (lifetime
        (List Book)
        json
        allocator
        margo
        resources
        proc
        texts
        garbage
        1
        42
        args
        requests
        []
        no_memory
      ≡ ok (replies, w))
    × (addresses w ≡ [])
unfolding steps step act make free knows without effective_token id_eq read_config configured adds
    with_entries
lifetime-steps_example =
    lifetime-steps (List Book) json allocator above-ne-null margo resources proc proc_laws texts
      garbage garbage-IsGarbage 1 42 args 1 requests [] no_memory refl (omega arith) (λ i. refl)
      id_of-inj (λ i. refl) refl refl refl refl
      (
        (refl, refl),
        (
          (refl, refl),
          (
            (refl, omega arith, omega arith),
            (refl, (refl, ((refl, omega arith, omega arith), ((omega arith, omega arith), tt)))),
          ),
        ),
      )

-- A provider with one phonebook, asked for a sum.
abbrev directory : Directory
directory = record { token = some "secret"; ids = id_of 1 ∷ []; printed = [] }

provider-Stands : Stands json allocator (provider, memory) directory
provider-Stands = record {
  owns = provider-Owns;
  types = refl;
  dummies = (refl, tt);
  token = refl;
  ids = refl;
  uuids = (refl, tt);
  printed = refl;
}

abbrev greeting : String
greeting = "Hello World from Dummy phonebook\n"

serve_all-steps_example :
    (s : Provider (Memory ℕ) (List Book) × Memory ℕ) × (serve_all proc texts garbage
        ((unheard, hello_command (id_of 1)) ∷ (fine, sum_command (id_of 1) 40 2) ∷ [])
        (provider, memory)
      ≡ ok (greeted success ∷ summed success (some 42) ∷ [], s))
    × Stands json allocator s (record directory { printed = greeting ∷ [] })
unfolding steps step act knows unanswered id_eq
serve_all-steps_example =
    serve_all-steps json allocator above-ne-null proc proc_laws texts garbage garbage-IsGarbage
      ((unheard, hello_command (id_of 1)) ∷ (fine, sum_command (id_of 1) 40 2) ∷ [])
      (provider, memory) directory provider-Stands (refl, ((refl, omega arith, omega arith), tt))

serve-sum_example :
    (reply : Reply) × (s : Provider (Memory ℕ) (List Book) × Memory ℕ) × (serve proc texts garbage
        fine
        (sum_command (id_of 1) (to_bits (negsuc 1)) (to_bits (pos 44)))
        (provider, memory)
      ≡ ok (reply, s))
    × Stands json allocator s directory
    × IsSumOf true (pos 42) reply
unfolding ◌+ℤ◌ knows id_eq
serve-sum_example =
    serve-sum json allocator above-ne-null proc proc_laws texts garbage garbage-IsGarbage fine
      (id_of 1) (negsuc 1) (pos 44) (provider, memory) directory provider-Stands refl refl
      (omega arith) (omega arith) (omega arith)

serve_all-returns_example :
    (answers : List Reply) × (s : Provider (Memory ℕ) (List Book) × Memory ℕ) × (serve_all proc
        texts garbage
        ((fine, destroy_command (some "secret") (id_of 1))
          ∷ (fine, sum_command (id_of 1) 40 2)
          ∷ [])
        (provider, memory)
      ≡ ok (answers, s))
    × (length answers ≡ 2)
unfolding ◌+ℤ◌ of_bits steps step act make free knows without id_eq
serve_all-returns_example =
    serve_all-returns json allocator above-ne-null proc proc_laws texts garbage garbage-IsGarbage
      ((fine, destroy_command (some "secret") (id_of 1)) ∷ (fine, sum_command (id_of 1) 40 2) ∷ [])
      (provider, memory) directory provider-Stands (refl, ((refl, omega arith, omega arith), tt))
      (tt, (tt, tt)) (refl, ((refl, omega arith), tt))
