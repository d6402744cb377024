-- ===== src/Extension/Routing/Stored.antt =====
-- packages/extension/src/browser-routing.ts: `asRoutingRecord`, which says what a stored value is taken
-- for. The validators cast the value that they are given: here they say whether they do.
use Prim.Native.String.{String}
use text.Mathlib.Text.{◌==◌ as str_eq}
use warren_sdk_ts.Prelude.{
  ℕ, List, [], ◌∷◌, Option, none, some, Bool, true, false, not, ◌&&◌, ◌||◌, ◌==◌, if◌then◌else◌,
}
use warren_sdk_ts.Discovery.Json.{
  Json, number, other_number, string, array, object, items, props, property, codes, is_digit,
}

-- `v.k`, `none` where it is `undefined`
abbrev pub field : String → Json → Option Json
field k (object ps) = property k (props ps)
field k _ = none

abbrev is_string : Option Json → Bool
is_string (some (string s)) = true
is_string _ = false

abbrev is_number : Option Json → Bool
is_number (some (number n)) = true
is_number (some other_number) = true
is_number _ = false

abbrev is_text : String → Option Json → Bool
is_text s (some (string t)) = str_eq t s
is_text s _ = false

abbrev is_one_of : ℕ → ℕ → Option Json → Bool
is_one_of m n (some (number k)) = k == m || k == n
is_one_of m n _ = false

abbrev all_strings : List Json → Bool
all_strings [] = true
all_strings (v ∷ vs) = is_string (some v) && all_strings vs

abbrev are_strings : Option Json → Bool
are_strings (some (array vs)) = all_strings (items vs)
are_strings _ = false

abbrev has_mode : Option Json → Bool
has_mode mode = is_text "all" mode || (is_text "bypass" mode || is_text "only" mode)

abbrev in_field : String → (Option Json → Bool) → Option Json → Bool
in_field k test none = false
in_field k test (some v) = test (field k v)

abbrev all_digits : List ℕ → Bool
all_digits [] = true
all_digits (c ∷ cs) = is_digit c && all_digits cs

-- `/^[^:]+:\d+$/`, from behind the first character on
abbrev names_port : List ℕ → Bool
names_port [] = false
names_port (c ∷ []) = false
names_port (c ∷ d ∷ cs) =
    let rest = names_port (d ∷ cs) in if c == 58 then all_digits (d ∷ cs) else rest

abbrev is_address : Option Json → Bool
is_address (some (string s)) = starts (codes s)
  where
    starts : List ℕ → Bool
    starts [] = false
    starts (c ∷ cs) = not (c == 58) && names_port cs
is_address _ = false

unfoldable pub is_split : Option Json → Bool
is_split value = in_field "mode" has_mode value && in_field "rules" are_strings value

unfoldable pub as_multihop_state : Json → Bool
unfolding is_split
as_multihop_state v =
    is_address (field "socks5" v)
    && (is_split (field "split" v) && is_number (field "installedAt" v))

unfoldable pub as_lockdown_state : Json → Bool
as_lockdown_state v = are_strings (field "exempt" v) && is_number (field "installedAt" v)

abbrev has_kind : Option Json → Bool
has_kind e =
    in_field "kind" (is_text "https") e
    || (in_field "kind" (is_text "masque") e && in_field "masqueTemplate" is_string e)

abbrev as_ingress_state : Json → Bool
as_ingress_state v =
    is_text "ingress" (field "tier" v)
    && (has_kind (field "endpoint" v)
        && (in_field "host" is_string (field "endpoint" v)
            && (in_field "port" is_number (field "endpoint" v)
                && (in_field "mode" has_mode (field "split" v)
                    && (in_field "country" is_string (field "exit" v)
                        && (in_field "city" is_string (field "exit" v)
                            && is_one_of 1 2 (field "hops" v)))))))

-- Whether a stored value is taken for a record
unfoldable pub as_routing_record : Json → Bool
unfolding as_multihop_state as_lockdown_state
as_routing_record v =
    if is_text "lockdown" (field "tier" v)
    then as_lockdown_state v
    else if is_text "multihop" (field "tier" v)
    then as_multihop_state v
    else as_ingress_state v

-- `load` of `routingStoreOver`, of a storage that answers: with nothing stored there is no record.
unfoldable pub load : Option Json → Option Json
unfolding as_routing_record
load none = none
load (some v) = if as_routing_record v then some v else none
