-- ===== src/Sockets/Select/Turns.antt =====
-- Whose turn it is.
use win_io.Base.{
  ℕ, zero, suc, ◌+◌, ◌-◌, ◌*◌, ◌/◌, ◌%◌, ◌^◌, ◌<◌, true, false, ◌==◌, ltb, if◌then◌else◌, List, [],
  ◌∷◌, ◌++◌, ◌≡◌, refl, sym, ◌∙◌, ap, arith, replicate, append-nil, Bool-cases, inl, inr,
}
use win_io.Base.Outcome.{Outcome, done, failed_assert, ◌>>=◌}
use win_io.Sockets.Select.{OpState, scheduler, fallback, select_start, select_many}
use native.Mathlib.Nat.{
  div-add-mod, mod-lt, mod_self, mod-eq_of_lt, mul-add-mod_self_left, mul-mod_left,
}

-- One more than a number.
mod_add_one : (n c : ℕ) → 0 < n → (c + 1) % n ≡ (if c % n + 1 == n then 0 else c % n + 1)
mod_add_one n c some =
    let split : c + 1 ≡ n * (c / n) + (c % n + 1) = omega (arith, div-add-mod c n) in
    let less : c % n < n = mod-lt c some in
    let reduced : (c + 1) % n ≡ (c % n + 1) % n =
      ap (λ x. x % n) split ∙ mul-add-mod_self_left n (c / n) (c % n + 1) in
    elim (Bool-cases (c % n + 1 == n)) [
      | inl full ↦
          let all : c % n + 1 ≡ n = ground (arith, full) in
          rw full (reduced ∙ ap (λ x. x % n) all ∙ mod_self n)
      | inr room ↦ rw room (reduced ∙ mod-eq_of_lt (ground (arith, room, less)))
    ]

-- The next residue, where the counter wraps at a multiple of `n`.
residue_step :
    (n k c : ℕ)
    → 0 < n
    → k * n ≡ 2 ^ 32
    → c < 2 ^ 32
    → ((c + 1) % 2 ^ 32) % n ≡ (if c % n + 1 == n then 0 else c % n + 1)
residue_step n k c some whole small = elim (Bool-cases (c + 1 == 2 ^ 32)) [
  | inl wraps ↦
      let at_end : c + 1 ≡ k * n = ground (arith, wraps, whole) in
      let zero_now : (c + 1) % 2 ^ 32 ≡ 0 = ground (arith, wraps) in
      let zero_mod : 0 % n ≡ 0 = omega arith in
      let multiple : (c + 1) % n ≡ 0 = ap (λ x. x % n) at_end ∙ mul-mod_left k n in
      ap (λ x. x % n) zero_now ∙ zero_mod ∙ sym multiple ∙ mod_add_one n c some
  | inr inside ↦
      let same : (c + 1) % 2 ^ 32 ≡ c + 1 = ground (arith, inside) in rw same (mod_add_one n c some)
]

prepend_none : (m : Outcome (List OpState)) → m ≡ (m >>= λ ops. done ([] ++ ops))
prepend_none (done ops) = refl
prepend_none failed_assert = refl

prepend_next :
    (op : OpState) (ops : List OpState) (m : Outcome (List OpState))
    → ((m >>= λ later. done (ops ++ later)) >>= λ later. done (op ∷ later))
      ≡ (m >>= λ later. done ((op ∷ ops) ++ later))
prepend_next op ops (done later) = refl
prepend_next op ops failed_assert = refl

module _ (n k : ℕ) (some : 0 < n) (whole : k * n ≡ 2 ^ 32) where
  selects :
      (c : ℕ)
      → c < 2 ^ 32
      → select_start c n ≡ done ((c + 1) % 2 ^ 32, if c % n + 1 == n then scheduler else fallback)
  unfolding select_start
  selects c small =
      let next = residue_step n k c some whole small in
      let positive : ltb 0 n ≡ true = ground (arith, some) in
      elim (Bool-cases (c % n + 1 == n)) [
        | inl full ↦ rw (positive, next, full) refl
        | inr room ↦
            let more : (c % n + 1 == 0) ≡ false = ground arith in
            rw (positive, next, room, more) refl
      ]

  -- `a` turns that do not come to a multiple of `n`.
  fallbacks :
      (a c b : ℕ)
      → c < 2 ^ 32
      → c % n + a < n
      → (c' : ℕ) × (c' < 2 ^ 32)
        × (c' % n ≡ c % n + a)
        × (select_many (a + b) c n
            ≡ (select_many b c' n >>= λ ops. done (replicate a fallback ++ ops)))
  unfolding select_many
  fallbacks zero c b small less =
      let none : 0 + b ≡ b = omega arith in
      (c, small, omega arith, rw none (prepend_none (select_many b c n)))
  fallbacks (suc a) c b small less =
      let room : (c % n + 1 == n) ≡ false = ground (arith, less) in
      let next : (c + 1) % 2 ^ 32 % n ≡ c % n + 1 =
        residue_step n k c some whole small ∙ rw room refl in
      let (c', small', residue, went_on) =
        fallbacks a ((c + 1) % 2 ^ 32) b (omega arith) (omega (arith, less, next)) in
      let turns : suc a + b ≡ suc (a + b) = omega arith in
      (
        c',
        small',
        omega (arith, residue, next),
        rw (turns, selects c small, room, went_on)
            (prepend_next fallback (replicate a fallback) (select_many b c' n)),
      )

  -- Of `n` operations that are started one after another, exactly one goes to the scheduler, and
  -- the others to the fallback: which one is given by the counter, which may wrap meanwhile,
  -- provided that `n` divides 2 ^ 32.
  pub select_many-once :
      (c : ℕ)
      → c < 2 ^ 32
      → select_many n c n
        ≡ done (replicate (n - 1 - c % n) fallback ++ scheduler ∷ replicate (c % n) fallback)
  unfolding select_many
  select_many-once c small =
      let less : c % n < n = mod-lt c some in
      let (c1, small1, at_last, first) =
        fallbacks (n - 1 - c % n) c (suc (c % n)) small (omega (arith, less)) in
      let full : (c1 % n + 1 == n) ≡ true = ground (arith, less, at_last) in
      let next : (c1 + 1) % 2 ^ 32 % n ≡ 0 = residue_step n k c1 some whole small1 ∙ rw full refl in
      let (c2, _, _, rest) =
        fallbacks (c % n) ((c1 + 1) % 2 ^ 32) 0 (omega arith) (omega (arith, less, next)) in
      let all : n ≡ (n - 1 - c % n) + suc (c % n) = omega (arith, less) in
      let rest' : select_many (c % n) ((c1 + 1) % 2 ^ 32) n ≡ done (replicate (c % n) fallback) =
        ap (λ turns. select_many turns ((c1 + 1) % 2 ^ 32) n) (omega arith)
        ∙ rest
        ∙ ap done (append-nil (replicate (c % n) fallback)) in
      let last : select_many (suc (c % n)) c1 n ≡ done (scheduler ∷ replicate (c % n) fallback) =
        rw (selects c1 small1, full, rest') refl in
      ap (λ turns. select_many turns c n) all
      ∙ first
      ∙ ap (λ m. m >>= λ ops. done (replicate (n - 1 - c % n) fallback ++ ops)) last
