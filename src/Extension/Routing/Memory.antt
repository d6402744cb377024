-- ===== src/Extension/Routing/Memory.antt =====
-- The requests that the Chromium listener remembers answering.
use warren_sdk_ts.Prelude.{
  ℕ, suc, ◌+◌, ◌≤◌, ◌<◌, ◌≡◌, refl, sym, ap, ◌∙◌, List, [], ◌∷◌, ◌++◌, append_assoc, Option, none,
  some, Bool, true, false, arith, Bool-cases, ltb, length, length-append, if◌then◌else◌, ltb→lt,
  not_less, ◌||◌, ◌⊎◌, inl, inr,
}
use warren_sdk_ts.Split.{Text, equal}
use warren_sdk_ts.Split.Rules.{equal_iff}
use warren_sdk_ts.Extension.Routing.Auth.{on_auth_required-IsAnswered}
use warren_sdk_ts.Extension.Routing.{
  ProxyAuth, Promised, resolved, rejected, Challenger, AuthChallenge, ProxyAuthSources, ignored,
  cancelled, credentials, holds, remember, credential_for, answer, respond, on_auth_required,
}

-- A challenge leaves the memory as it was, or adds one id to it.
after_challenge :
    (lower : Text → Text) (show : ℕ → Text) (sources : ProxyAuthSources) (answered : List Text)
    (details : AuthChallenge)
    → ((on_auth_required lower show sources answered details).0 ≡ answered)
      ⊎ ((t : Text) × ((on_auth_required lower show sources answered details).0
            ≡ remember t answered))
unfolding on_auth_required
after_challenge lower show sources answered details =
    go details.is_proxy details.request_id details.challenger
  where
    kept :
        (id : Text) (q : Promised (Option ProxyAuth))
        → ((respond lower show answered id q).0 ≡ answered)
          ⊎ ((t : Text) × ((respond lower show answered id q).0 ≡ remember t answered))
    kept id rejected = inl refl
    kept id (resolved none) = inl refl
    kept id (resolved (some auth)) = inr (id, refl)

    go :
        (b : Bool) (r : Option Text) (o : Option Challenger)
        → ((if b then answer lower show sources answered r o else (answered, ignored)).0 ≡ answered)
          ⊎ ((t : Text) × ((if b
                  then answer lower show sources answered r o
                  else (answered, ignored)).0
                ≡ remember t answered))
    go false r o = inl refl
    go true r none = inl refl
    go true none (some c) = inl refl
    go true (some id) (some c) = elim (Bool-cases (holds id answered)) [
      | inl old ↦ rw old (inl refl)
      | inr new ↦ rw new (kept id (credential_for lower show sources c))
    ]

-- `id` is in the memory, at most `n` ids are behind it, and the memory is within its bound.
record Recent (id : Text) (n : ℕ) (answered : List Text) : Type 0 where
  older : List Text
  newer : List Text
  split : answered ≡ older ++ (id ∷ newer)
  few : length newer ≤ n
  bounded : length answered ≤ 512

holds-Recent :
    (id : Text) (n : ℕ) (answered : List Text) → Recent id n answered → holds id answered ≡ true
holds-Recent id n answered r = rw r.split (found r.older)
  where
    or_true : (b : Bool) → (b || true) ≡ true
    or_true true = refl
    or_true false = refl

    found : (older : List Text) → holds id (older ++ (id ∷ r.newer)) ≡ true
    found [] = rw ((equal_iff id id).1 refl) refl
    found (t ∷ ts) = rw (found ts) (or_true (equal t id))

-- One more id behind it.
Recent-remember :
    (id t : Text) (n : ℕ) (answered : List Text)
    → n < 511
    → Recent id n answered
    → Recent id (suc n) (remember t answered)
unfolding remember
Recent-remember id t n answered h r =
    go r.older r.split (Bool-cases (ltb 512 (length (answered ++ t ∷ []))))
  where
    longer : length (answered ++ t ∷ []) ≡ length answered + 1
    longer = length-append answered (t ∷ [])

    go :
        (older : List Text)
        → answered ≡ older ++ (id ∷ r.newer)
        → ((ltb 512 (length (answered ++ t ∷ [])) ≡ true)
            ⊎ (ltb 512 (length (answered ++ t ∷ [])) ≡ false))
        → Recent id (suc n) (remember t answered)
    go older e (inr small) =
        rw (remember, small)
          (record {
            older = older;
            newer = r.newer ++ t ∷ [];
            split = ap (λ l. l ++ t ∷ []) e ∙ append_assoc older (id ∷ r.newer) (t ∷ []);
            few = omega (arith, length-append r.newer (t ∷ []), r.few);
            bounded = not_less 512 (length (answered ++ t ∷ [])) small;
          })
    go [] e (inl large) = absurd (
        let more = ltb→lt 512 (length (answered ++ t ∷ [])) large in
        let all_newer : length answered ≡ suc (length r.newer) = ap length e in
        omega (arith, longer, r.few))
    go (o ∷ os) e (inl large) =
        rw (remember, large)
          (rw e (record {
            older = os;
            newer = r.newer ++ t ∷ [];
            split = append_assoc os (id ∷ r.newer) (t ∷ []);
            few = omega (arith, length-append r.newer (t ∷ []), r.few);
            bounded = shorter o os e;
          }))
      where
        shorter :
            (x : Text) (xs : List Text)
            → answered ≡ x ∷ (xs ++ (id ∷ r.newer))
            → length ((xs ++ (id ∷ r.newer)) ++ t ∷ []) ≤ 512
        shorter x xs f =
            let whole : length answered ≡ suc (length (xs ++ (id ∷ r.newer))) = ap length f in
            omega (arith, length-append (xs ++ (id ∷ r.newer)) (t ∷ []), r.bounded)

-- The memory after a run of challenges, each with what the sources answer to it.
unfoldable pub memory_after :
    (Text → Text) → (ℕ → Text) → List (ProxyAuthSources × AuthChallenge) → List Text → List Text
unfolding on_auth_required
memory_after lower show [] answered = answered
memory_after lower show ((sources, details) ∷ rest) answered =
    memory_after lower show rest (on_auth_required lower show sources answered details).0

module _ (lower : Text → Text) (show : ℕ → Text) where
  Recent-after :
      (id : Text) (n : ℕ) (sources : ProxyAuthSources) (details : AuthChallenge)
      (answered : List Text)
      → n < 511
      → Recent id n answered
      → Recent id (suc n) (on_auth_required lower show sources answered details).0
  Recent-after id n sources details answered h r =
      elim (after_challenge lower show sources answered details) [
        | inl same ↦ rw same (record {
          older = r.older;
          newer = r.newer;
          split = r.split;
          few = omega (arith, r.few);
          bounded = r.bounded;
        })
        | inr (t, added) ↦ rw added (Recent-remember id t n answered h r)
      ]

  still_Recent :
      (id : Text) (run : List (ProxyAuthSources × AuthChallenge)) (n : ℕ) (answered : List Text)
      → n + length run ≤ 511
      → Recent id n answered
      → Recent id (n + length run) (memory_after lower show run answered)
  unfolding memory_after
  still_Recent id [] n answered h r = let same : n + 0 ≡ n = omega arith in rw same r
  still_Recent id ((sources, details) ∷ run) n answered h r =
      let next : n + suc (length run) ≡ suc n + length run = omega arith in
      rw next (
        still_Recent id run (suc n) (on_auth_required lower show sources answered details).0
          (omega arith) (Recent-after id n sources details answered (omega arith) r))

  just_answered :
      (id : Text) (answered : List Text)
      → length answered ≤ 512
      → Recent id 0 (remember id answered)
  unfolding remember
  just_answered id answered h = go answered h (Bool-cases (ltb 512 (length (answered ++ id ∷ []))))
    where
      go :
          (ts : List Text)
          → length ts ≤ 512
          → ((ltb 512 (length (ts ++ id ∷ [])) ≡ true) ⊎ (ltb 512 (length (ts ++ id ∷ [])) ≡ false))
          → Recent id 0 (remember id ts)
      go ts k (inr small) =
          rw (remember, small)
            (record {
              older = ts;
              newer = [];
              split = refl;
              few = omega arith;
              bounded = not_less 512 (length (ts ++ id ∷ [])) small;
            })
      go [] k (inl large) = absurd cc
      go (t ∷ ts) k (inl large) =
          rw (remember, large)
            (record {
              older = ts;
              newer = [];
              split = refl;
              few = omega arith;
              bounded = omega (arith, length-append ts (id ∷ []));
            })

  -- The memory never holds more than 512 ids.
  memory_bounded :
      (run : List (ProxyAuthSources × AuthChallenge)) (answered : List Text)
      → length answered ≤ 512
      → length (memory_after lower show run answered) ≤ 512
  unfolding memory_after
  memory_bounded [] answered h = h
  memory_bounded ((sources, details) ∷ run) answered h =
      memory_bounded run (on_auth_required lower show sources answered details).0
        (elim (after_challenge lower show sources answered details) [
          | inl same ↦ rw same h
          | inr (t, added) ↦ rw added ((just_answered t answered h).bounded)
        ])

  -- After any challenges, a request is answered with credentials; then, behind at most 511 further
  -- challenges, another proxy challenge for the same request is cancelled: the proxy has refused the
  -- credentials, and they are not offered again.
  pub on_auth_required_once :
      (before between : List (ProxyAuthSources × AuthChallenge)) (sources later : ProxyAuthSources)
      (details : AuthChallenge) (after : List Text) (auth : ProxyAuth) (id : Text)
      (challenger : Option Challenger)
      → on_auth_required lower show sources (memory_after lower show before []) details
        ≡ (after, credentials auth)
      → details.request_id ≡ some id
      → length between ≤ 511
      → (on_auth_required lower show later
          (memory_after lower show between after)
          (record { is_proxy = true; request_id = some id; challenger = challenger })).1
        ≡ cancelled
  unfolding on_auth_required
  on_auth_required_once before between sources later details after auth id challenger h er few =
      let a = on_auth_required-IsAnswered lower show sources _ after auth details h in
      let same : a.id ≡ id = cc (a.request_id, er) in
      let stored : after ≡ remember id (memory_after lower show before []) =
        rw (sym same) a.remembered in
      let recent : Recent id 0 after = rw stored (
        just_answered id (memory_after lower show before [])
          (memory_bounded before [] (omega arith))) in
      let still : Recent id (0 + length between) (memory_after lower show between after) =
        still_Recent id between 0 after (omega (arith, few)) recent in
      refused challenger (holds-Recent id _ _ still)
    where
      refused :
          (o : Option Challenger)
          → holds id (memory_after lower show between after) ≡ true
          → (answer lower show later (memory_after lower show between after) (some id) o).1
            ≡ cancelled
      refused none known = refl
      refused (some c) known = rw known refl
