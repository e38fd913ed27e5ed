-- ===== src/Text/Space.antt =====
-- The size of the token space of transforms/text.py: the loops against the geometric sum.
use dbf_anonymizer.Prelude.{
  ℕ, zero, suc, ◌+◌, ◌*◌, ◌^◌, ◌≤◌, ◌<◌, ◌≡◌, false, inl, inr, arith, Bool-cases, ℤ, pos, negsuc,
  leb_ℤ, ◌∙◌, sym, ap,
}
use dbf_anonymizer.Errors.{ok, ok-injective}
use dbf_anonymizer.Text.{space_loop, token_space, at_least_loop, token_space_at_least}
use native.Mathlib.Nat.{pow-suc, pow-zero}

-- base^1 + ... + base^width
unfoldable pub geometric : ℕ → ℕ → ℕ
geometric base zero = 0
geometric base (suc w) = base * (1 + geometric base w)

pub space_loop-eq : (n b term total : ℕ) → space_loop n b term total ≡ total + term * geometric b n
unfolding space_loop geometric
space_loop-eq zero b term total = grind arith
space_loop-eq (suc n) b term total = space_loop-eq n b (term * b) (total + term * b) ∙ grind arith

pub geometric-last : (b n : ℕ) → geometric b (suc n) ≡ geometric b n + b ^ suc n
unfolding geometric
geometric-last b zero = grind (arith, pow-suc b 0, pow-zero b)
geometric-last b (suc n) =
    ap (λ (g : ℕ). b * (1 + g)) (geometric-last b n) ∙ grind (arith, pow-suc b (suc n))

pub le-space_loop : (n b term total : ℕ) → total ≤ space_loop n b term total
le-space_loop n b term total = omega (arith, space_loop-eq n b term total)

at_least_loop-eq :
    (n b term total : ℕ) (needed : ℤ)
    → leb_ℤ needed (pos total) ≡ false
    → at_least_loop n b term total needed ≡ leb_ℤ needed (pos (space_loop n b term total))
unfolding at_least_loop space_loop
at_least_loop-eq zero b term total needed h = sym h
at_least_loop-eq (suc n) b term total needed h =
    elim (Bool-cases (leb_ℤ needed (pos (total + term * b)))) [
      | inl reached ↦ ground (arith, le-space_loop n b (term * b) (total + term * b))
      | inr short ↦ rw short (at_least_loop-eq n b (term * b) (total + term * b) needed short)
    ]

-- The first round always runs, so the streamed test needs no bound from below.
at_least_loop_first :
    (n b term total : ℕ) (needed : ℤ)
    → at_least_loop (suc n) b term total needed
      ≡ leb_ℤ needed (pos (space_loop (suc n) b term total))
unfolding at_least_loop space_loop
at_least_loop_first n b term total needed =
    elim (Bool-cases (leb_ℤ needed (pos (total + term * b)))) [
      | inl reached ↦ ground (arith, le-space_loop n b (term * b) (total + term * b))
      | inr short ↦ rw short (at_least_loop-eq n b (term * b) (total + term * b) needed short)
    ]

-- Where `token_space` returns a count, the streamed test `token_space_at_least` answers exactly
-- whether that count reaches `needed`, for every integer `needed`.
pub token_space_at_least-eq_le :
    (max_width base needed : ℤ) (space : ℕ)
    → token_space max_width base ≡ ok space
    → token_space_at_least max_width base needed ≡ leb_ℤ needed (pos space)
unfolding token_space token_space_at_least space_loop
token_space_at_least-eq_le (pos zero) (pos (suc b)) needed space h =
    ap (λ s. leb_ℤ needed (pos s)) (ok-injective h)
token_space_at_least-eq_le (pos (suc w)) (pos (suc b)) needed space h =
    at_least_loop_first w (suc b) 1 0 needed ∙ ap (λ s. leb_ℤ needed (pos s)) (ok-injective h)
token_space_at_least-eq_le (pos w) (pos zero) needed space h = cc
token_space_at_least-eq_le (pos w) (negsuc b) needed space h = cc
token_space_at_least-eq_le (negsuc w) base needed space h = cc

-- With a non-empty alphabet `token_space` returns the geometric sum.
pub token_space-eq_geometric : (w b : ℕ) → 0 < b → token_space (pos w) (pos b) ≡ ok (geometric b w)
unfolding token_space
token_space-eq_geometric w zero h = absurd (omega arith)
token_space-eq_geometric w (suc b) h = ap ok (space_loop-eq w (suc b) 1 0 ∙ grind arith)
