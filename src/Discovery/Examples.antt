-- ===== src/Discovery/Examples.antt =====
-- The theorems on exit selection and on the acceptance of documents at concrete inputs.
use Prim.Native.String.{String}
use text.Mathlib.Text.{◌==◌ as str_eq}
use warren_sdk_ts.Prelude.{
  ℕ, if◌then◌else◌, ◌≡◌, ◌↔◌, refl, List, [], ◌∷◌, ◌++◌, none, some, Bool, true, false, arith,
}
use warren_sdk_ts.Discovery.Relay.{Relay}
use warren_sdk_ts.Discovery.Selector.{
  ExitQuery, relay_matches, location_matches, ip_matches, keep, candidates, select_exit,
  select_exit_weighted, total_weight,
}
use warren_sdk_ts.Discovery.Selector.First.{IsFirstMatch, select_exit_iff}
use warren_sdk_ts.Discovery.Selector.Weighted.{pool, select_exit_weighted-stretch}
use warren_sdk_ts.Discovery.Selector.Attempt.{mulberry32_word}
use warren_sdk_ts.Discovery.Stores.{
  Verified, AcceptStores, Accepted, Checked, valid, invalid, finish_accept, effective_pins,
  store_floor, accepted, failed, expired, accept,
}
use warren_sdk_ts.Discovery.Stores.Policy.{IsAccepted, recorded, accept_iff}
use warren_sdk_ts.Discovery.Stores.History.{Offer, run, IsAscending, run-IsAscending}

abbrev relay : String → ℕ → Bool → Relay
relay country weight active = record {
  endpoint_id_hex = "aa";
  exit_id_hex = "bb";
  country = country;
  city = "city";
  weight = weight;
  active = active;
  ipv6_egress = true;
  has_ipv4 = true;
  has_ipv6 = false;
  addrs = [];
  cover_domain = none;
}

abbrev relays : List Relay
relays = relay "fr" 5 false ∷ relay "de" 2 true ∷ relay "nl" 3 true ∷ []

abbrev any_query : ExitQuery
any_query = record { location = none; ip_availability = none; require_ipv6_egress = none }

abbrev same : String → String
same s = s

select_exit_iff_example :
    (select_exit same relays any_query ≡ some (relay "de" 2 true))
    ↔ IsFirstMatch same any_query (relay "de" 2 true) relays
select_exit_iff_example = select_exit_iff same any_query relays (relay "de" 2 true)

abbrev draw_four : ℕ → ℕ
draw_four total = 4

stretch_pool : pool same relays any_query ≡ (relay "de" 2 true ∷ []) ++ (relay "nl" 3 true ∷ [])
unfolding candidates relay_matches keep location_matches ip_matches
stretch_pool = refl

select_exit_weighted-stretch_example :
    select_exit_weighted same relays any_query draw_four ≡ some (relay "nl" 3 true)
unfolding total_weight
select_exit_weighted-stretch_example =
    select_exit_weighted-stretch same relays any_query draw_four (relay "nl" 3 true)
      (relay "de" 2 true ∷ []) [] 2 stretch_pool (omega arith) refl

-- The generator's first output, as JavaScript computes it
mulberry32_first : mulberry32_word 1 ≡ 2693262067
unfolding mulberry32_word
mulberry32_first = refl

abbrev document : ℕ → String → Verified
document generation key = record {
  generation = generation;
  server_pubkey_hex = key;
  expires_at = 100;
}

-- A verifier that passes one document, under its key or with no pin
abbrev passes : Verified → List String → Checked (Unit {0})
passes doc [] = valid doc
passes doc (pin ∷ pins) = if str_eq doc.server_pubkey_hex pin then valid doc else invalid tt

abbrev stores : AcceptStores
stores = record { floor = some 3; pin = some none }

accept_iff_example :
    (accept (passes (document 5 "aa")) [] 50 stores
      ≡ (recorded [] stores (document 5 "aa"), accepted (document 5 "aa")))
    ↔ (IsAccepted (passes (document 5 "aa")) [] 50 stores (document 5 "aa")
        × (recorded [] stores (document 5 "aa") ≡ recorded [] stores (document 5 "aa")))
accept_iff_example =
    accept_iff (passes (document 5 "aa")) [] 50 stores (recorded [] stores (document 5 "aa"))
      (document 5 "aa")

abbrev late : AcceptStores × Accepted (Unit {0})
late = accept (passes (document 5 "aa")) [] 100 stores

late-expired : late ≡ (late.0, failed expired)
unfolding accept finish_accept effective_pins
late-expired = refl

abbrev offer : ℕ → String → Offer (Unit {0})
offer generation key = record { verify = passes (document generation key); pins = []; now = 50 }

abbrev offers : List (Offer (Unit {0}))
offers = offer 5 "aa" ∷ offer 4 "aa" ∷ offer 9 "bb" ∷ offer 7 "aa" ∷ []

test_run :
    run offers (record { floor = some 0; pin = some none }) ≡ document 5 "aa" ∷ document 7 "aa" ∷ []
unfolding run accept finish_accept effective_pins store_floor
test_run = refl

run-IsAscending_example : IsAscending 0 (run offers (record { floor = some 0; pin = some none }))
run-IsAscending_example = run-IsAscending offers 0 (some none)
