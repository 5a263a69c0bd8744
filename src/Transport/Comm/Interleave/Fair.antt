-- ===== src/Transport/Comm/Interleave/Fair.antt =====
-- The interleaving keeps the operations of each peer, all of them and in their order.
use asystem_awex.Prelude.{
  ℕ, zero, suc, ◌+◌, ◌≤◌, ◌≡◌, refl, sym, ap, ap₂, ◌∙◌, subst, true, false, Option, none, some,
  List, [], ◌∷◌, ◌++◌, append-nil, ◌||◌, length, length-append, length-take, length-select,
  get_elem?, take, select, select-append, any, ◌==◌, ==_iff, ==_refl, arith, inl, inr, Bool-cases,
  Option-cases, if◌then◌else◌,
}
use asystem_awex.Prelude.Equality.{nat_eq}
use asystem_awex.Prelude.Counts.{times, length-le}
use asystem_awex.Prelude.Dict.{Dict, bucket}
use asystem_awex.Prelude.Sort.{nat_ord}
use asystem_awex.Transport.Comm.Interleave.{
  Interleaving, set_progress, take_next, take_one, one_pass,
}

pub take-suc {ℓ} :
    {A : Type ℓ} (xs : List A) (i : ℕ) (x : A)
    → get_elem? xs i ≡ some x
    → take (i + 1) xs ≡ take i xs ++ x ∷ []
take-suc [] i x h = absurd (cc)
take-suc (y ∷ xs) zero x h = let same : y ≡ x = cc in ap (λ z. z ∷ []) same
take-suc (y ∷ xs) (suc i) x h =
    let shift : suc i + 1 ≡ suc (i + 1) = omega arith in rw shift (ap (◌∷◌ y) (take-suc xs i x h))

pub take-all {ℓ} : {A : Type ℓ} (n : ℕ) (xs : List A) → length xs ≤ n → take n xs ≡ xs
take-all zero [] h = refl
take-all (suc n) [] h = refl
take-all zero (x ∷ xs) h = absurd (omega arith)
take-all (suc n) (x ∷ xs) h = ap (◌∷◌ x) (take-all n xs (omega arith))

pub none_left {ℓ} : {A : Type ℓ} (xs : List A) (i f : ℕ) → get_elem? xs i ≡ none → length xs ≤ i + f
none_left [] i f h = omega arith
none_left (x ∷ xs) zero f h = absurd (cc)
none_left (x ∷ xs) (suc i) f h = let rest = none_left xs i f h in omega arith

other_peer : (own peer p : ℕ) → own ≡ peer → (p == peer) ≡ false → (own == p) ≡ false
other_peer own peer p e h = ground arith

module _ {ℓ} {A : Type ℓ} (peer_of : A → ℕ) (ops : List A) where
  -- The operations with a peer.
  abbrev pub of_peer : ℕ → List A → List A
  of_peer p xs = select (λ op. peer_of op == p) xs

  of_peer-peer_cons :
      (p : ℕ) (x : A) (xs : List A) (i : ℕ) (op : A)
      → (peer_of x == p) ≡ true
      → ((j : ℕ) → get_elem? (of_peer p xs) j ≡ some op → (peer_of op == p) ≡ true)
      → get_elem? (x ∷ of_peer p xs) i ≡ some op
      → (peer_of op == p) ≡ true
  of_peer-peer_cons p x xs zero op t rest h =
      let same : x ≡ op = cc in subst (λ y. (peer_of y == p) ≡ true) same t
  of_peer-peer_cons p x xs (suc i) op t rest h = rest i h

  of_peer-peer :
      (p : ℕ) (xs : List A) (i : ℕ) (op : A)
      → get_elem? (of_peer p xs) i ≡ some op
      → (peer_of op == p) ≡ true
  of_peer-peer p [] i op h = absurd (cc)
  of_peer-peer p (x ∷ xs) i op h = elim (Bool-cases (peer_of x == p)) [
    | inl t ↦
        of_peer-peer_cons p x xs i op t (λ j. of_peer-peer p xs j op) (rw (t, if◌then◌else◌) at h)
    | inr t ↦ of_peer-peer p xs i op (rw (t, if◌then◌else◌) at h)
  ]

  -- What holds before and after every step of the loops.
  pub record Fair (s : Interleaving A) : Type ℓ where
    pub taken : (p : ℕ) → of_peer p s.interleaved ≡ take (s.progress p) (of_peer p ops)
    pub left : s.remaining + length s.interleaved ≡ length ops

  times-taken :
      (xs : List A) (p n : ℕ)
      → of_peer p xs ≡ take n (of_peer p ops)
      → times peer_of p xs ≤ times peer_of p ops
  times-taken xs p n h =
      let now = length-select (λ op. peer_of op == p) xs in
      let all = length-select (λ op. peer_of op == p) ops in
      let part = ap length h ∙ length-take n (of_peer p ops) in omega (arith, now, all, part)

  pub Fair-times :
      (s : Interleaving A) → Fair s → (p : ℕ) → times peer_of p s.interleaved ≤ times peer_of p ops
  Fair-times s i p = times-taken s.interleaved p _ (i.taken p)

  take_next-taken :
      (peer : ℕ) (s : Interleaving A) (op : A)
      → get_elem? (of_peer peer ops) (s.progress peer) ≡ some op
      → Fair s
      → (p : ℕ)
      → of_peer p (s.interleaved ++ op ∷ [])
        ≡ take (set_progress s.progress peer (s.progress peer + 1) p) (of_peer p ops)
  unfolding set_progress
  take_next-taken peer s op found i p =
      let own = (==_iff (peer_of op) peer).0 (of_peer-peer peer ops (s.progress peer) op found) in
      let split = select-append (λ o. peer_of o == p) s.interleaved (op ∷ []) in
      elim (Bool-cases (p == peer)) [
        | inl t ↦
            let e = (==_iff p peer).0 t in
            let mine : (peer_of op == p) ≡ true = (==_iff (peer_of op) p).1 (own ∙ sym e) in
            let found' =
              subst (λ q. get_elem? (of_peer q ops) (s.progress q) ≡ some op) (sym e) found in
            let same = ap s.progress e in
            split
            ∙ ap₂ ◌++◌ (i.taken p) (ap (λ b. if b then op ∷ [] else []) mine)
            ∙ sym (take-suc (of_peer p ops) (s.progress p) op found')
            ∙ ap (λ n. take (n + 1) (of_peer p ops)) same
            ∙ ap (λ b. take (if b then s.progress peer + 1 else s.progress p) (of_peer p ops))
                (sym t)
        | inr t ↦
            let other : (peer_of op == p) ≡ false = other_peer (peer_of op) peer p own t in
            split
            ∙ ap₂ ◌++◌ (i.taken p) (ap (λ b. if b then op ∷ [] else []) other)
            ∙ append-nil (take (s.progress p) (of_peer p ops))
            ∙ ap (λ b. take (if b then s.progress peer + 1 else s.progress p) (of_peer p ops))
                (sym t)
      ]

  take_next-Fair :
      (peer : ℕ) (s : Interleaving A) (op : A)
      → get_elem? (of_peer peer ops) (s.progress peer) ≡ some op
      → Fair s
      → Fair (take_next peer_of (some op) peer s)
  unfolding take_next
  take_next-Fair peer s op found i =
      let taken' = take_next-taken peer s op found i in
      let more = length-append s.interleaved (op ∷ []) in
      let room =
        length-le peer_of (s.interleaved ++ op ∷ []) ops (λ p. times-taken _ p _ (taken' p)) in
      record { taken = taken'; left = omega (arith, more, room, i.left) }

  -- At most so many operations of a peer are left.
  abbrev pub Behind : (p f : ℕ) → Interleaving A → Type 0
  Behind p f s = length (of_peer p ops) ≤ s.progress p + f

  set_progress-le :
      (progress : ℕ → ℕ) (peer p n : ℕ)
      → n ≤ progress p
      → n ≤ set_progress progress peer (progress peer + 1) p
  unfolding set_progress
  set_progress-le progress peer p n h = elim (Bool-cases (p == peer)) [
    | inl t ↦
        let e = ap progress ((==_iff p peer).0 t) in
        rw (set_progress, t, if◌then◌else◌) (omega arith)
    | inr t ↦ rw (set_progress, t, if◌then◌else◌) h
  ]

  take_next-Behind :
      (found : Option A) (peer p f : ℕ) (s : Interleaving A)
      → Behind p f s
      → Behind p f (take_next peer_of found peer s)
  unfolding take_next
  take_next-Behind none peer p f s h = h
  take_next-Behind (some op) peer p f s h =
      let grows = set_progress-le s.progress peer p (s.progress p) (omega arith) in
      omega (arith, grows, h)

  module _ (by_peer : Dict ℕ (List A)) (same : (p : ℕ) → bucket by_peer p ≡ of_peer p ops) where
    take_one-Fair :
        (peer : ℕ) (s : Interleaving A) → Fair s → Fair (take_one peer_of by_peer peer s)
    unfolding take_one take_next
    take_one-Fair peer s i =
        elim (Option-cases (get_elem? (bucket by_peer peer) (s.progress peer))) [
          | inl t ↦ rw (take_one, t) i
          | inr (op, t) ↦ rw (take_one, t) (take_next-Fair peer s op (rw (same peer) at t) i)
        ]

    take_one-ahead :
        (peer f : ℕ) (s : Interleaving A)
        → Behind peer (suc f) s
        → Behind peer f (take_one peer_of by_peer peer s)
    unfolding take_one take_next set_progress
    take_one-ahead peer f s h =
        elim (Option-cases (get_elem? (bucket by_peer peer) (s.progress peer))) [
          | inl t ↦
              rw (take_one, t)
                (none_left (of_peer peer ops) (s.progress peer) f (rw (same peer) at t))
          | inr (op, t) ↦
              rw (take_one, t)
                (let self = ==_refl peer in
                  rw (set_progress, self, if◌then◌else◌) (omega (arith, h)))
        ]

    pub one_pass-Fair :
        (peers : List ℕ) (s : Interleaving A) → Fair s → Fair (one_pass peer_of by_peer peers s)
    unfolding one_pass
    one_pass-Fair [] s i = i
    one_pass-Fair (peer ∷ peers) s i = one_pass-Fair peers _ (take_one-Fair peer s i)

    one_pass-Behind :
        (peers : List ℕ) (p f : ℕ) (s : Interleaving A)
        → Behind p f s
        → Behind p f (one_pass peer_of by_peer peers s)
    unfolding one_pass take_one
    one_pass-Behind [] p f s h = h
    one_pass-Behind (peer ∷ peers) p f s h =
        one_pass-Behind peers p f _ (take_next-Behind _ peer p f s h)

    pub one_pass-ahead :
        (peers : List ℕ) (p f : ℕ) (s : Interleaving A)
        → any (λ q. q == p) peers ≡ true
        → Behind p (suc f) s
        → Behind p f (one_pass peer_of by_peer peers s)
    unfolding one_pass take_one
    one_pass-ahead [] p f s h b = absurd (cc)
    one_pass-ahead (peer ∷ peers) p f s h b = elim (Bool-cases (peer == p)) [
      | inl t ↦
          let e = (==_iff peer p).0 t in
          one_pass-Behind peers p f (take_one peer_of by_peer peer s) (
            subst (λ q. Behind q f (take_one peer_of by_peer peer s)) e
              (take_one-ahead peer f s (subst (λ q. Behind q (suc f) s) (sym e) b)))
      | inr t ↦
          one_pass-ahead peers p f _ (rw (t, ◌||◌) at h) (take_next-Behind _ peer p (suc f) s b)
    ]
