-- ===== src/Model/Crews.antt =====
-- Crews compared as sets of workers, `set(a) == set(b)`.
use glass_guru.Base.{
  ◌≡◌, ◌↔◌, Bool, true, ◌&&◌, List, all, All, Member, mem, mem_iff, all_iff, arith, string_eq,
}
use glass_guru.Model.Entities.{WorkerId}

unfoldable pub same_set : List WorkerId → List WorkerId → Bool
same_set a b = all (λ w. mem w b) a && all (λ w. mem w a) b

-- The two lists hold the same workers.
abbrev pub SameCrew : List WorkerId → List WorkerId → Type 0
SameCrew a b = All (λ w. Member w b) a × All (λ w. Member w a) b

pub same_set_iff : (a b : List WorkerId) → (same_set a b ≡ true) ↔ SameCrew a b
unfolding same_set
same_set_iff a b = ground (
  arith,
  all_iff (λ w. Member w b) (λ w. mem w b) (λ w. mem_iff w b) a,
  all_iff (λ w. Member w a) (λ w. mem w a) (λ w. mem_iff w a) b,
)
