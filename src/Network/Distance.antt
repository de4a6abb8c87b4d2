-- ===== src/Network/Distance.antt =====
-- How many nodes a lookup passes.
use native.Mathlib.Nat.{mul_assoc, pow-suc}
use rings_node.Base.{
  ℕ, suc, ◌+◌, ◌*◌, ◌^◌, ◌≤◌, ◌<◌, ◌≡◌, ◌≢◌, sym, ◌∙◌, inl, inr, arith, subst, ltb, Bool-cases,
}
use rings_node.Error.{ok, ok-inj}
use rings_node.Did.{Did, IsDid, sub}
use rings_node.Did.Ring.{sub-IsDid, sub-pos}
use rings_node.Finger.Closest.{Closest, Closest-progress, IsCovered, Closest-halves}
use rings_node.Finger.Invariant.{pow_mono}
use rings_node.Action.{some_node, remote_action, RemoteAction}
use rings_node.Action
use rings_node.Chord.{PeerRing, find_successor}
use rings_node.Chord.Lookup.{find_successor_returns}
use rings_node.Network.{IsNetwork, Hops, start, hop}

answer_ne : {n m : Did} {a : RemoteAction} → some_node n ≢ remote_action m a
answer_ne e = cc

remote-inj : {n m : Did} {a b : RemoteAction} → remote_action n a ≡ remote_action m b → n ≡ m
remote-inj e = cc

mul_mono : (a x y : ℕ) → x ≤ y → a * x ≤ a * y
mul_mono a x y h = grind arith

mul_one : (a : ℕ) → a * 1 ≡ a
mul_one a = omega arith

-- One more doubling.
double : (n x y z : ℕ) → 2 * y ≤ x → 2 ^ n * x ≤ z → 2 ^ suc n * y ≤ z
double n x y z h k =
    rw (pow-suc 2 n) (omega (arith, mul_mono (2 ^ n) (2 * y) x h, mul_assoc (2 ^ n) 2 y, k))

few : (n x : ℕ) → 0 < x → 2 ^ n * x < 2 ^ 160 → n < 160
few n x h k = elim (Bool-cases (ltb n 160)) [
  | inl e ↦ ground arith
  | inr e ↦
      absurd
        (omega (arith, pow_mono 160 n (ground arith), mul_mono (2 ^ n) 1 x h, mul_one (2 ^ n), k))
]

module _ {S C : Type 0} (net : Did → PeerRing S C) (ok_net : IsNetwork net) (did : Did)
    (d : IsDid did) where
  asked :
      (b c : Did)
      → IsDid b
      → find_successor (net b) did ≡ ok (remote_action c (Action.find_successor did))
      → Closest (net b).finger.value did 160 c
  asked b c ib e =
      elim (find_successor_returns (net b) did (ok_net.ring_ok b ib) (ok_net.unlocked b ib)) [
        | inl (n, e', _) ↦ absurd (answer_ne (ok-inj (sym e' ∙ e)))
        | inr (n, e', close, _, _) ↦
            subst (Closest (net b).finger.value did 160) (remote-inj (ok-inj (sym e' ∙ e))) close
      ]

  owner : (b : Did) → IsDid b → (net b).finger.value.did ≡ b
  owner b ib = (ok_net.ring_ok b ib).finger_own ∙ ok_net.named b ib

  hop_nearer :
      (b c : Did)
      → IsDid b
      → find_successor (net b) did ≡ ok (remote_action c (Action.find_successor did))
      → c ≢ b
      → IsDid c × (sub did c < sub did b)
  hop_nearer b c ib e ne =
      subst (λ x. IsDid c × (sub did c < sub did x)) (owner b ib)
        (Closest-progress (net b).finger.value did c 160 (ok_net.ring_ok b ib).finger_ok d
          (asked b c ib e) (λ q. ne (q ∙ owner b ib)))

  -- In a network of well-formed unlocked nodes every hop to another node is to an identifier strictly nearer to `did`: a lookup from `a` makes at most as
  -- many hops as there are steps from `a` to `did`.
  pub Hops-bounded :
      {P : Did → Type 0} {a b : Did} {n : ℕ}
      → IsDid a
      → Hops net did P a b n
      → IsDid b × (sub did b + n ≤ sub did a)
  Hops-bounded ia start = (ia, omega arith)
  Hops-bounded ia (hop {b = b} {n = n} c h p e ne) =
      let (ib, far) = Hops-bounded ia h in
      let (ic, near) = hop_nearer b c ib e ne in (ic, omega (arith, far, near))

  hop_halves :
      (b c : Did)
      → IsDid b
      → IsCovered (net b).finger.value did
      → find_successor (net b) did ≡ ok (remote_action c (Action.find_successor did))
      → 2 * sub did c ≤ sub did b
  hop_halves b c ib cov e =
      let w = ok_net.ring_ok b ib in
      subst (λ x. 2 * sub did c ≤ sub did x) (owner b ib)
        (Closest-halves (net b).finger.value did c w.finger_ok d cov
          (subst (λ s. Closest (net b).finger.value did s c) (sym w.finger_size) (asked b c ib e)))

  -- The node at a clockwise distance of zero is `did` itself.
  pub covered-Hops :
      {a b : Did} {n : ℕ}
      → IsDid a
      → Hops net did (λ x. IsCovered (net x).finger.value did) a b n
      → 2 ^ n * sub did b ≤ sub did a
  covered-Hops ia start = omega arith
  covered-Hops {a = a} ia (hop {b = b} {n = n} c h p e ne) =
      double n (sub did b) (sub did c) (sub did a) (hop_halves b c (Hops-bounded ia h).0 p e)
        (covered-Hops ia h)

  -- The logarithmic bound of Chord, in a network of well-formed unlocked nodes: where each node passed holds, in its finger for the distance of
  -- `did`, a node before `did`, then `n` hops divide the distance by `2 ^ n`; so a lookup that has not
  -- arrived at `did` itself has made fewer than 160 hops.
  pub Hops-logarithmic :
      {a b : Did} {n : ℕ}
      → IsDid a
      → Hops net did (λ x. IsCovered (net x).finger.value did) a b n
      → (2 ^ n * sub did b ≤ sub did a) × (did ≢ b → n < 160)
  Hops-logarithmic {a = a} {b = b} {n = n} ia h = (
    covered-Hops ia h,
    λ ne.
        few n (sub did b) (sub-pos did b d (Hops-bounded ia h).0 ne)
          (omega (arith, covered-Hops ia h, sub-IsDid did a)),
  )
