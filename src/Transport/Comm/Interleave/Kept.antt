-- ===== src/Transport/Comm/Interleave/Kept.antt =====
-- What the interleaving returns.
use asystem_awex.Prelude.{
  ℕ, zero, suc, ◌+◌, ◌≤◌, ◌≡◌, ◌⊎◌, refl, sym, ap, ◌∙◌, true, false, ◌||◌, List, [], ◌∷◌, length,
  length-append, length-take, length-select, select, any, sum_by, ltb, ltb→ge, ◌==◌, arith, inl,
  inr, Bool-cases,
}
use asystem_awex.Prelude.Equality.{nat_eq}
use asystem_awex.Prelude.Counts.{times, length-le, times-full}
use asystem_awex.Prelude.Dict.{
  Dict, push, group_onto, keys, values, group_by, bucket, bucket-group_by,
}
use asystem_awex.Prelude.Sort.{sort_on, insert, nat_ord}
use asystem_awex.Prelude.Result.{ok, ◌>>=◌}
use asystem_awex.Transport.Comm.Interleave.{
  Interleaving, one_pass, passes, interleave_p2p_ops_by_peer,
}
use asystem_awex.Transport.Comm.Interleave.Fair.{
  of_peer, Fair, Fair-times, Behind, one_pass-Fair, one_pass-ahead, take-all,
}

any-insert :
    (p x : ℕ) (ys : List ℕ)
    → any (λ q. q == p) (insert (λ z. z) x ys) ≡ ((x == p) || any (λ q. q == p) ys)
any-insert p x [] = refl
any-insert p x (y ∷ ys) = ground (arith, any-insert p x ys)

pub any-sorted :
    (p : ℕ) (xs : List ℕ) → any (λ q. q == p) (sort_on (λ z. z) xs) ≡ any (λ q. q == p) xs
any-sorted p [] = refl
any-sorted p (x ∷ xs) = ground (arith, any-insert p x (sort_on (λ z. z) xs), any-sorted p xs)

module _ {ℓ} {A : Type ℓ} where
  pub bucket-absent :
      (d : Dict ℕ (List A)) (p : ℕ) → any (λ q. q == p) (keys d) ≡ false → bucket d p ≡ []
  bucket-absent [] p h = refl
  bucket-absent ((j, xs) ∷ d) p h = ground (arith, bucket-absent d p)

  total-push :
      (d : Dict ℕ (List A)) (k : ℕ) (x : A)
      → sum_by length (values (push d k x)) ≡ sum_by length (values d) + 1
  total-push [] k x = omega arith
  total-push ((j, xs) ∷ d) k x = ground (arith, total-push d k x, length-append xs (x ∷ []))

  total-group_onto :
      (f : A → ℕ) (d : Dict ℕ (List A)) (xs : List A)
      → sum_by length (values (group_onto f d xs)) ≡ length xs + sum_by length (values d)
  total-group_onto f d [] = omega arith
  total-group_onto f d (x ∷ xs) =
      omega (arith, total-group_onto f (push d (f x) x) xs, total-push d (f x) x)

module _ {ℓ} {A : Type ℓ} (peer_of : A → ℕ) where
  same_length :
      (xs ys : List A)
      → ((p : ℕ) → select (λ op. peer_of op == p) xs ≡ select (λ op. peer_of op == p) ys)
      → length xs ≡ length ys
  same_length xs ys h =
      let equal : (p : ℕ) → times peer_of p xs ≡ times peer_of p ys = λ p.
        sym (length-select (λ op. peer_of op == p) xs)
        ∙ ap length (h p)
        ∙ length-select (λ op. peer_of op == p) ys in
      let up = length-le peer_of xs ys (λ p. omega (arith, equal p)) in
      let down = length-le peer_of ys xs (λ p. omega (arith, equal p)) in omega (arith, up, down)

module _ {ℓ} {A : Type ℓ} (peer_of : A → ℕ) (ops : List A) (by_peer : Dict ℕ (List A))
    (same : (p : ℕ) → bucket by_peer p ≡ of_peer peer_of ops p ops) (peers : List ℕ)
    (known : (p : ℕ) → (any (λ q. q == p) peers ≡ true) ⊎ (of_peer peer_of ops p ops ≡ [])) where
  -- The loop is over for every peer.
  Over : Interleaving A → Type ℓ
  Over s = Fair peer_of ops s × ((p : ℕ) → Behind peer_of ops p 0 s)

  nothing_left :
      (s : Interleaving A)
      → Fair peer_of ops s
      → s.remaining ≡ 0
      → (p : ℕ) → Behind peer_of ops p 0 s
  nothing_left s i none_remaining p =
      let long : length s.interleaved ≡ length ops = omega (arith, i.left, none_remaining) in
      let full = times-full peer_of s.interleaved ops (Fair-times peer_of ops s i) long p in
      let now = length-select (λ op. peer_of op == p) s.interleaved in
      let all = length-select (λ op. peer_of op == p) ops in
      let part = ap length (i.taken p) ∙ length-take (s.progress p) (of_peer peer_of ops p ops) in
      omega (arith, full, now, all, part)

  -- Where every peer is at its end, nothing remains.
  nothing_remains :
      (s : Interleaving A)
      → Fair peer_of ops s
      → ((p : ℕ) → Behind peer_of ops p 0 s)
      → ltb 0 s.remaining ≡ false
  nothing_remains s i b =
      let same = same_length peer_of s.interleaved ops (λ p.
        i.taken p ∙ take-all (s.progress p) (of_peer peer_of ops p ops) (omega (arith, b p))) in
      let none_remaining : s.remaining ≡ 0 = omega (arith, i.left, same) in rw none_remaining refl

  -- The loop ends within the fuel.
  passes-Over :
      (fuel : ℕ) (s : Interleaving A)
      → Fair peer_of ops s
      → ((p : ℕ) → Behind peer_of ops p fuel s)
      → (end : Interleaving A) × (passes peer_of fuel by_peer peers s ≡ ok end) × Over end
  unfolding passes Over
  passes-Over zero s i b = (s, rw (passes, nothing_remains s i b) refl, (i, b))
  passes-Over (suc fuel) s i b = elim (Bool-cases (ltb 0 s.remaining)) [
    | inl t ↦
        rw (passes, t)
          (passes-Over fuel (one_pass peer_of by_peer peers s)
            (one_pass-Fair peer_of ops by_peer same peers s i)
            (λ p. elim (known p) [
              | inl h ↦ one_pass-ahead peer_of ops by_peer same peers p fuel s h (b p)
              | inr h ↦ let empty = ap length h in omega (arith, empty)
            ]))
    | inr t ↦
        (s, rw (passes, t) refl, (i, nothing_left s i (omega (arith, ltb→ge 0 s.remaining t))))
  ]

module _ {ℓ} {A : Type ℓ} (peer_of : A → ℕ) where
  start-Fair :
      (ops : List A)
      → Fair peer_of ops (record {
        progress = λ peer. 0;
        remaining = sum_by length (values (group_by peer_of ops));
        interleaved = [];
      })
  start-Fair ops = record {
    taken = λ p. refl;
    left = omega (arith, total-group_onto peer_of [] ops);
  }

  times-of_peer :
      (xs : List A) (p q : ℕ)
      → times peer_of q (select (λ op. peer_of op == p) xs) ≤ times peer_of q xs
  times-of_peer [] p q = omega arith
  times-of_peer (x ∷ xs) p q = ground (arith, times-of_peer xs p q)

  fewer_of_peer : (ops : List A) (p : ℕ) → length (of_peer peer_of ops p ops) ≤ length ops
  fewer_of_peer ops p = length-le peer_of (of_peer peer_of ops p ops) ops (times-of_peer ops p)

  peers-known :
      (ops : List A) (p : ℕ)
      → (any (λ q. q == p) (sort_on (λ peer. peer) (keys (group_by peer_of ops))) ≡ true)
        ⊎ (of_peer peer_of ops p ops ≡ [])
  peers-known ops p = elim (Bool-cases (any (λ q. q == p) (keys (group_by peer_of ops)))) [
    | inl t ↦ inl (any-sorted p (keys (group_by peer_of ops)) ∙ t)
    | inr t ↦ inr (sym (bucket-group_by peer_of ops p) ∙ bucket-absent (group_by peer_of ops) p t)
  ]

  -- The while loop ends after at most as many passes as there are operations, and what the function
  -- returns loses and repeats nothing: it has as many operations as were given, and the operations
  -- with each peer are those that were given, in the order in which they were given, so that two ends
  -- that list their operations alike still meet in the same order.
  pub interleave_p2p_ops_by_peer-kept :
      (ops : List A)
      → (interleaved : List A) × (interleave_p2p_ops_by_peer peer_of ops ≡ ok interleaved)
        × ((p : ℕ)
            → select (λ op. peer_of op == p) interleaved ≡ select (λ op. peer_of op == p) ops)
        × (length interleaved ≡ length ops)
  unfolding interleave_p2p_ops_by_peer Over
  interleave_p2p_ops_by_peer-kept ops =
      let (end, ended, (fair, over)) =
        passes-Over peer_of ops (group_by peer_of ops) (λ p. bucket-group_by peer_of ops p)
          (sort_on (λ peer. peer) (keys (group_by peer_of ops))) (peers-known ops) (length ops) _
          (start-Fair ops) (λ p. let few = fewer_of_peer ops p in omega (arith, few)) in
      let kept : (p : ℕ)
          → select (λ op. peer_of op == p) end.interleaved ≡ select (λ op. peer_of op == p) ops =
        λ p. fair.taken p ∙ take-all _ (of_peer peer_of ops p ops) (omega (arith, over p)) in
      (
        end.interleaved,
        rw (interleave_p2p_ops_by_peer, ended, ◌>>=◌) refl,
        kept,
        same_length peer_of end.interleaved ops kept,
      )
