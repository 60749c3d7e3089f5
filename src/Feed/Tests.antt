-- ===== src/Feed/Tests.antt =====
-- The list of the gone at two exits, 11 seconds apart.
use native.Mathlib.Omega.{arith}
use uniproc_windows_agent.Base.{
  ℕ, ◌-◌, ◌+◌, [], ◌∷◌, ◌≡◌, refl, leb, if◌then◌else◌, nat_beq, pair_beq,
}
use uniproc_windows_agent.Base.Map.{get, insert, remove}
use uniproc_windows_agent.Feed.Gone.{
  GoneList, evict, gone_kept, image_gone, image_gone-remember, left_then, remember, same_process,
}

abbrev first : GoneList
first = remember 10 100 "a.exe" 0 (record { order = []; images = [] })

abbrev second_at : ℕ
second_at = 11_000_000_000

image_gone-remember_example :
    image_gone 10 100 (second_at + 1) (remember 20 200 "b.exe" second_at first) ≡ (
      if same_process (20, 200) (10, 100)
      then (if leb (second_at + 1 - second_at) gone_kept then "b.exe" else "")
      else image_gone 10 100 (second_at + 1) first)
image_gone-remember_example =
    image_gone-remember 20 200 10 100 "b.exe" second_at (second_at + 1) first (omega arith)

first_let_go :
    (remember 20 200 "b.exe" second_at first).images ≡ ((20, 200), (second_at, "b.exe")) ∷ []
unfolding remember evict left_then get insert remove
first_let_go = refl
