-- ===== src/CallHooks/Masked.antt =====
-- Hiding parts of a text behind bullets shows no text that was not there before.
use mathlib.Core.Path.{subst}
use corella.Prelude.{
  ℕ, zero, suc, ◌+◌, ◌-◌, ◌≤◌, ◌≡◌, refl, sym, ap, ◌∙◌, true, false, [], ◌∷◌, ◌++◌, ◌==◌, if-elim,
  length, take, drop, take-append-drop, All, Text, nonempty, starts_with, contains, arith,
  Bool-cases, inl, inr,
}
use corella.CallHooks.Redact.{
  bullet, redacted, replace_from, replace, hide_bearers, spaces_at, token_at, bearer_at,
}

-- `Masked s t`: `t` is `s` with parts of it cut off at the end or replaced by bullets.
pub data Masked : Text → Text → Type 0 where
  done : (s : Text) → Masked s []
  same : (c : ℕ) (s t : Text) → Masked s t → Masked (c ∷ s) (c ∷ t)
  mark : (hidden s t whole : Text) → whole ≡ hidden ++ s → Masked s t → Masked whole (bullet ∷ t)

-- A text without bullets.
abbrev pub IsPlain : Text → Type 0
IsPlain = All (λ c. (c == bullet) ≡ false)

starts_with-Masked :
    (w s t : Text) → Masked s t → IsPlain w → starts_with w t ≡ true → starts_with w s ≡ true
unfolding starts_with
starts_with-Masked [] s t m p h = refl
starts_with-Masked (x ∷ w) s t (done _) p h = cc
starts_with-Masked (x ∷ w) s t (same c s' t' m) p h =
    ground (arith, starts_with-Masked w s' t' m p.1)
starts_with-Masked (x ∷ w) s t (mark hidden s' t' _ e m) p h = ground (arith, p.0)

contains-append : (w q s : Text) → contains w s ≡ true → contains w (q ++ s) ≡ true
unfolding contains
contains-append w [] s h = h
contains-append w (c ∷ q) s h =
    if-elim (λ b. b ≡ true) (starts_with w (c ∷ q ++ s)) _ _ (λ e. refl)
      (λ e. contains-append w q s h)

contains-Masked :
    (x : ℕ) (w s t : Text)
    → Masked s t
    → IsPlain (x ∷ w)
    → contains (x ∷ w) t ≡ true
    → contains (x ∷ w) s ≡ true
unfolding contains
contains-Masked x w s t (done _) p h = cc
contains-Masked x w s t (same c s' t' m) p h = ground (
  arith,
  starts_with-Masked (x ∷ w) (c ∷ s') (c ∷ t') (same c s' t' m) p,
  contains-Masked x w s' t' m p,
)
contains-Masked x w s t (mark hidden s' t' _ e m) p h =
    rw e (contains-append (x ∷ w) hidden s' (contains-Masked x w s' t' m p (ground (arith, p.0))))

Masked-append : (q s t : Text) → Masked s t → Masked (q ++ s) (q ++ t)
Masked-append [] s t m = m
Masked-append (c ∷ q) s t m = same c (q ++ s) (q ++ t) (Masked-append q s t m)

Masked-redacted :
    (hidden s t whole : Text) → whole ≡ hidden ++ s → Masked s t → Masked whole (redacted ++ t)
Masked-redacted hidden s t whole e m =
    mark hidden s (bullet ∷ bullet ∷ bullet ∷ t) whole e (
      mark [] s (bullet ∷ bullet ∷ t) s refl (mark [] s (bullet ∷ t) s refl (mark [] s t s refl m)))

pub take-Masked : (n : ℕ) (s : Text) → Masked s (take n s)
unfolding take
take-Masked zero s = done s
take-Masked (suc n) [] = done []
take-Masked (suc n) (c ∷ s) = same c s (take n s) (take-Masked n s)

replace_from-Masked :
    (old : Text) (skip : ℕ) (s : Text) → Masked (drop skip s) (replace_from old redacted skip s)
unfolding replace_from drop
replace_from-Masked old zero [] = done []
replace_from-Masked old (suc skip) [] = done []
replace_from-Masked old (suc skip) (c ∷ s) = replace_from-Masked old skip s
replace_from-Masked old zero (c ∷ s) =
    if-elim (Masked (c ∷ s)) (starts_with old (c ∷ s)) _ _
      (λ hit.
        Masked-redacted (c ∷ take (length old - 1) s) (drop (length old - 1) s)
          (replace_from old redacted (length old - 1) s) (c ∷ s)
          (ap (◌∷◌ c) (sym (take-append-drop (length old - 1) s)))
          (replace_from-Masked old (length old - 1) s))
      (λ miss. same c s (replace_from old redacted 0 s) (replace_from-Masked old 0 s))

drop-nil : (n : ℕ) → ◌≡◌ {A = Text} (drop n []) []
unfolding drop
drop-nil zero = refl
drop-nil (suc n) = refl

drop-drop : (m n : ℕ) (s : Text) → drop n (drop m s) ≡ drop (m + n) s
unfolding drop
drop-drop zero n s = ap (λ k. drop k s) (omega arith)
drop-drop (suc m) zero [] = sym (drop-nil (suc m + 0))
drop-drop (suc m) (suc n) [] = sym (drop-nil (suc m + suc n))
drop-drop (suc m) n (c ∷ s) =
    let both : suc (m + n) ≡ suc m + n = omega arith in
    drop-drop m n s ∙ ap (λ k. drop k (c ∷ s)) both

drop-pred : (n c : ℕ) (s : Text) → 1 ≤ n → drop n (c ∷ s) ≡ drop (n - 1) s
unfolding drop
drop-pred zero c s h = absurd (omega arith)
drop-pred (suc n) c s h = ap (λ k. drop k s) (omega arith)

pub hide_bearers-Masked : (skip : ℕ) (s : Text) → Masked (drop skip s) (hide_bearers skip s)
unfolding hide_bearers drop
hide_bearers-Masked zero [] = done []
hide_bearers-Masked (suc skip) [] = done []
hide_bearers-Masked (suc skip) (c ∷ s) = hide_bearers-Masked skip s
hide_bearers-Masked zero (c ∷ s) =
    let kept : ℕ = 6 + spaces_at (c ∷ s) in
    let token : ℕ = token_at (c ∷ s) in
    let rest : Text = hide_bearers (kept + token - 1) s in
    if-elim (Masked (c ∷ s)) (bearer_at (c ∷ s)) _ _
      (λ hit.
        subst (λ whole. Masked whole (take kept (c ∷ s) ++ (redacted ++ rest)))
          (take-append-drop kept (c ∷ s))
          (Masked-append (take kept (c ∷ s)) (drop kept (c ∷ s)) (redacted ++ rest) (
            Masked-redacted (take token (drop kept (c ∷ s))) (drop (kept + token - 1) s) rest
              (drop kept (c ∷ s))
              (sym (take-append-drop token (drop kept (c ∷ s)))
                ∙ ap (λ r. take token (drop kept (c ∷ s)) ++ r)
                    (drop-drop kept token (c ∷ s) ∙ drop-pred (kept + token) c s (omega arith)))
              (hide_bearers-Masked (kept + token - 1) s))))
      (λ miss. same c s (hide_bearers 0 s) (hide_bearers-Masked 0 s))

replace_from-removes :
    (x : ℕ) (w : Text) (skip : ℕ) (s : Text)
    → IsPlain (x ∷ w)
    → contains (x ∷ w) (replace_from (x ∷ w) redacted skip s) ≡ false
unfolding replace_from contains drop
replace_from-removes x w zero [] p = refl
replace_from-removes x w (suc skip) [] p = refl
replace_from-removes x w (suc skip) (c ∷ s) p = replace_from-removes x w skip s p
replace_from-removes x w zero (c ∷ s) p = ground (
  arith,
  p.0,
  replace_from-removes x w (length (x ∷ w) - 1) s p,
  replace_from-removes x w 0 s p,
  starts_with-Masked (x ∷ w) (c ∷ s) (c ∷ replace_from (x ∷ w) redacted 0 s)
      (same c s (replace_from (x ∷ w) redacted 0 s) (replace_from-Masked (x ∷ w) 0 s)) p,
)

-- What a text does not contain, masking it does not bring in.
pub lacks-Masked :
    (w s t : Text)
    → nonempty w ≡ true
    → IsPlain w
    → Masked s t
    → contains w s ≡ false
    → contains w t ≡ false
lacks-Masked [] s t n p m h = cc
lacks-Masked (x ∷ w) s t n p m h = elim (Bool-cases (contains (x ∷ w) t)) [
  | inl found ↦ cc (contains-Masked x w s t m p found)
  | inr absent ↦ absent
]

pub replace-lacks :
    (w s : Text) → nonempty w ≡ true → IsPlain w → contains w (replace s w redacted) ≡ false
replace-lacks [] s n p = cc
replace-lacks (x ∷ w) s n p = replace_from-removes x w 0 s p

pub replace-Masked : (s old : Text) → Masked s (replace s old redacted)
unfolding drop
replace-Masked s old = replace_from-Masked old 0 s
