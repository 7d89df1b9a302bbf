-- ===== src/Program/Fresh.antt =====
-- src/main.c: the tasks that the main loop gets, as the file gives them: none has run yet, and no
-- two have the same id.
use mathlib.Core.Path.{subst}
use soa_p1_grupo_cu.Base.{
  ℕ, zero, suc, ◌≡◌, ◌≢◌, refl, sym, ap, ◌∙◌, some, List, [], ◌∷◌, map, All, get_elem?, arith, inl,
  inr,
}
use soa_p1_grupo_cu.Base.Float.{Floats}
use soa_p1_grupo_cu.Task.{Node}
use soa_p1_grupo_cu.Parser.Load.{Row}
use soa_p1_grupo_cu.Parser.Load.File.{Distinct}
use soa_p1_grupo_cu.Parser.Options.{Options, same_text}
use soa_p1_grupo_cu.Parser.Options.Usable.{IsMode}
use soa_p1_grupo_cu.Scheduler.Ids.{AllFresh, DistinctIds, SameIds, SameIds-distinct}
use soa_p1_grupo_cu.Scheduler.Configure.{
  SlicedAll, configure_cooperative-SlicedAll, wanted, scheduler_configure_cooperative,
}
use soa_p1_grupo_cu.Scheduler.Init.{SlotFits, node_of_row}
use soa_p1_grupo_cu.Scheduler.Readable.{ShortId}
use soa_p1_grupo_cu.Program.{configured}

module _ ⦃fl : Floats⦄ where
  rows-AllFresh : (rs : List Row) → AllFresh (map node_of_row rs)
  rows-AllFresh [] = tt
  rows-AllFresh (r ∷ rs) = (refl, rows-AllFresh rs)

  rows-ShortId : (rs : List Row) → All SlotFits rs → All ShortId (map node_of_row rs)
  rows-ShortId [] h = tt
  rows-ShortId (r ∷ rs) h = (omega (arith, h.0), rows-ShortId rs h.1)

  -- A row that none of the others shares its id with.
  row-other :
      (id : ℕ) (rs : List Row) (j : ℕ) (m : Node)
      → All (λ (q : Row). id ≢ q.id) rs
      → get_elem? (map node_of_row rs) j ≡ some m
      → id ≢ m.id
  row-other id [] j m out at = absurd (cc)
  row-other id (q ∷ rs) zero m out at =
      let same : node_of_row q ≡ m = cc in λ e. out.0 (e ∙ sym (ap (λ (x : Node). x.id) same))
  row-other id (q ∷ rs) (suc j) m out at = row-other id rs j m out.1 at

  rows-DistinctIds : (rs : List Row) → Distinct rs → DistinctIds (map node_of_row rs)
  rows-DistinctIds [] d i j n m at_i at_j same = absurd (cc)
  rows-DistinctIds (r ∷ rs) d zero zero n m at_i at_j same = refl
  rows-DistinctIds (r ∷ rs) d zero (suc j) n m at_i at_j same =
      let e : node_of_row r ≡ n = cc in
      absurd (row-other r.id rs j m d.0 at_j (ap (λ (x : Node). x.id) e ∙ same))
  rows-DistinctIds (r ∷ rs) d (suc i) zero n m at_i at_j same =
      let e : node_of_row r ≡ m = cc in
      absurd (row-other r.id rs i n d.0 at_i (ap (λ (x : Node). x.id) e ∙ sym same))
  rows-DistinctIds (r ∷ rs) d (suc i) (suc j) n m at_i at_j same =
      ap suc (rows-DistinctIds rs d.1 i j n m at_i at_j same)

  module _ (slice : Node → ℕ) where
    sliced-SameIds : (ns ns' : List Node) → SlicedAll slice ns ns' → SameIds ns ns'
    sliced-SameIds [] [] s j m at = absurd (cc)
    sliced-SameIds [] (n' ∷ ns') s j m at = absurd s
    sliced-SameIds (n ∷ ns) [] s j m at = absurd s
    sliced-SameIds (n ∷ ns) (n' ∷ ns') s zero m at =
        let e : n' ≡ m = cc in
        (n, refl, ap (λ (x : Node). x.id) (sym e) ∙ ap (λ (x : Node). x.id) s.0.rest)
    sliced-SameIds (n ∷ ns) (n' ∷ ns') s (suc j) m at = sliced-SameIds ns ns' s.1 j m at

    sliced-AllFresh : (ns ns' : List Node) → SlicedAll slice ns ns' → AllFresh ns → AllFresh ns'
    sliced-AllFresh [] [] s h = tt
    sliced-AllFresh [] (n' ∷ ns') s h = absurd s
    sliced-AllFresh (n ∷ ns) [] s h = absurd s
    sliced-AllFresh (n ∷ ns) (n' ∷ ns') s h =
        (ap (λ (x : Node). x.task.work_units_done) s.0.rest ∙ h.0, sliced-AllFresh ns ns' s.1 h.1)

    sliced-ShortId :
        (ns ns' : List Node) → SlicedAll slice ns ns' → All ShortId ns → All ShortId ns'
    sliced-ShortId [] [] s h = tt
    sliced-ShortId [] (n' ∷ ns') s h = absurd s
    sliced-ShortId (n ∷ ns) [] s h = absurd s
    sliced-ShortId (n ∷ ns) (n' ∷ ns') s h =
        (omega (arith, ap (λ (x : Node). x.id) s.0.rest, h.0), sliced-ShortId ns ns' s.1 h.1)

  same_list : {ns ns' : List Node} → some ns ≡ some ns' → ns ≡ ns'
  same_list e = cc e

  pub configured_fresh :
      (o : Options) (rs : List Row) (ns : List Node)
      → IsMode o
      → Distinct rs
      → All SlotFits rs
      → configured o (map node_of_row rs) ≡ some ns
      → AllFresh ns × DistinctIds ns × All ShortId ns
  unfolding configured same_text
  configured_fresh o rs ns (inl (q, pos)) d fit e =
      let same : map node_of_row rs ≡ ns = same_list (rw q at e) in
      (
        subst AllFresh same (rows-AllFresh rs),
        subst DistinctIds same (rows-DistinctIds rs d),
        subst (All ShortId) same (rows-ShortId rs fit),
      )
  configured_fresh o rs ns (inr (c, pct)) d fit e =
      let made = map node_of_row rs in
      let s = configure_cooperative-SlicedAll o.slice_percent made in
      let same : scheduler_configure_cooperative o.slice_percent made ≡ ns =
        same_list (rw c at e) in
      (
        subst AllFresh same (sliced-AllFresh (wanted o.slice_percent) made _ s (rows-AllFresh rs)),
        subst DistinctIds same (
            SameIds-distinct made _ (sliced-SameIds (wanted o.slice_percent) made _ s)
              (rows-DistinctIds rs d)),
        subst (All ShortId) same
            (sliced-ShortId (wanted o.slice_percent) made _ s (rows-ShortId rs fit)),
      )
