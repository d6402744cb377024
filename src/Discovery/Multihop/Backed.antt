-- ===== src/Discovery/Multihop/Backed.antt =====
-- The exits of the vouched nodes, one by one.
use warren_sdk_ts.Prelude.{
  ◌≤◌, ◌≡◌, inl, inr, refl, List, [], ◌∷◌, Option, none, some, arith, length, In,
}
use warren_sdk_ts.Discovery.Platform.{Bytes, Platform, Checked, ok, fail, ◌>>=◌}
use warren_sdk_ts.Discovery.Multihop.Node.{CanonicalNode}
use warren_sdk_ts.Discovery.Multihop.Vouch.{WarrenDirectoryErrorCode, NodeVouch, vouch_node}
use warren_sdk_ts.Discovery.Multihop.Signatures.{IsVouched, vouch_node-IsVouched}
use warren_sdk_ts.Discovery.Multihop.{VerifiedExit, exit_of, kept, vouched_exits}

-- A node that the operational key vouches for in full, and that the exit shows.
pub record IsBacked (p : Platform) (operational : Bytes) (nodes : List CanonicalNode)
    (e : VerifiedExit) : Type 0 where
  pub node : CanonicalNode
  pub vouch : NodeVouch
  pub listed : In node nodes
  pub vouched : IsVouched p operational node vouch
  pub shown : e ≡ exit_of node vouch

module _ (p : Platform) (operational : Bytes) where
  later :
      (n : CanonicalNode) (ns : List CanonicalNode) (e : VerifiedExit)
      → IsBacked p operational ns e
      → IsBacked p operational (n ∷ ns) e
  later n ns e b = record {
    node = b.node;
    vouch = b.vouch;
    listed = inr b.listed;
    vouched = b.vouched;
    shown = b.shown;
  }

  -- Every exit is backed, and there are no more of them than nodes.
  pub vouched_exits-IsBacked :
      (nodes : List CanonicalNode) (exits : List VerifiedExit)
      → vouched_exits p operational nodes ≡ ok exits
      → ((e : VerifiedExit) → In e exits → IsBacked p operational nodes e)
        × (length exits ≤ length nodes)
  unfolding vouched_exits
  vouched_exits-IsBacked [] exits h =
      let none_left : exits ≡ [] = cc in
      ((λ e i. absurd (rw none_left at i)), rw none_left (omega arith))
  vouched_exits-IsBacked (n ∷ ns) exits h =
      go (vouch_node p operational n) (vouched_exits p operational ns) refl h
        (vouched_exits-IsBacked ns)
    where
      go :
          (c : Checked WarrenDirectoryErrorCode (Option NodeVouch))
          (r : Checked WarrenDirectoryErrorCode (List VerifiedExit))
          → vouch_node p operational n ≡ c
          → (c >>= λ vouch. r >>= λ rest. ok (kept n vouch rest)) ≡ ok exits
          → ((rest : List VerifiedExit)
              → r ≡ ok rest
              → ((e : VerifiedExit) → In e rest → IsBacked p operational ns e)
                × (length rest ≤ length ns))
          → ((e : VerifiedExit) → In e exits → IsBacked p operational (n ∷ ns) e)
            × (length exits ≤ length (n ∷ ns))
      go (fail x) r step h ih = absurd cc
      go (ok v) (fail x) step h ih = absurd cc
      go (ok none) (ok rest) step h ih =
          let same : exits ≡ rest = cc in
          let (backed, fewer) = ih rest refl in
          ((λ e i. later n ns e (backed e (rw same at i))), rw same (omega arith))
      go (ok (some v)) (ok rest) step h ih =
          let same : exits ≡ exit_of n v ∷ rest = cc in
          let (backed, fewer) = ih rest refl in
          ((λ e i. split e backed (rw same at i)), rw same (omega arith))
        where
          split :
              (e : VerifiedExit)
              → ((x : VerifiedExit) → In x rest → IsBacked p operational ns x)
              → In e (exit_of n v ∷ rest)
              → IsBacked p operational (n ∷ ns) e
          split e backed (inl first) = record {
            node = n;
            vouch = v;
            listed = inl refl;
            vouched = vouch_node-IsVouched p operational n v step;
            shown = first;
          }
          split e backed (inr i) = later n ns e (backed e i)
