-- ===== src/Peaks/Filters.antt =====
-- The filters of Detect, the sort and the cap keep the peaks sound and apart.
use mathlib.Core.Path.{subst}
use mathlib.Core.List.{Permᴰ}
use ego_touch_rev.Prelude.{
  ℕ, zero, suc, ◌≤◌, ◌≡◌, refl, arith, List, [], ◌∷◌, Bool, true, false, length, take, All,
  All-take, length-take, if◌then◌else◌, Bool-cases, inl, inr, ap, ◌∙◌,
}
use ego_touch_rev.Engine.{Heat}
use ego_touch_rev.Peaks.{
  Peak, Settings, remove_if, apply_z8_filter, apply_z1_filter, filter_edge_line,
  apply_edge_peak_filter,
}
use ego_touch_rev.Peaks.Insert.{Apart, Apart-symm, Separate, AtLeast}
use ego_touch_rev.Peaks.Track.{filter_peaks, cap_peaks}
use ego_touch_rev.Peaks.Detect.{IsPeak}

-- Every peak is at least as strong as those before it.
abbrev pub Ascending : List Peak → Type 0
Ascending [] = Unit
Ascending (p ∷ ps) = All (AtLeast p.z) ps × Ascending ps

-- What `std::sort` by the signal promises: the same peaks, in ascending order.
pub record SortsBySignal (sort : List Peak → List Peak) : Type 0 where
  pub rearranges : (ps : List Peak) → Permᴰ ps (sort ps)
  pub ascending : (ps : List Peak) → Ascending (sort ps)

module _ (P : Peak → Type 0) (test : Peak → Bool) where
  remove_if-All : (ps : List Peak) → All P ps → All P (remove_if test ps)
  unfolding remove_if
  remove_if-All [] a = a
  remove_if-All (p ∷ ps) (h, a) = ground (arith, remove_if-All ps a)

module _ (test : Peak → Bool) where
  remove_if-Separate : (ps : List Peak) → Separate ps → Separate (remove_if test ps)
  unfolding remove_if
  remove_if-Separate [] s = s
  remove_if-Separate (p ∷ ps) (a, s) = elim (Bool-cases (test p)) [
    | inl t ↦ rw (t, remove_if) (remove_if-Separate ps s)
    | inr t ↦ rw (t, remove_if) (remove_if-All (Apart p) test ps a, remove_if-Separate ps s)
  ]

  remove_if-length : (ps : List Peak) → length (remove_if test ps) ≤ length ps
  unfolding remove_if
  remove_if-length [] = omega arith
  remove_if-length (p ∷ ps) = ground (arith, remove_if-length ps)

perm-All : (P : Peak → Type 0) {ps qs : List Peak} → Permᴰ ps qs → All P ps → All P qs
perm-All P Permᴰ.nil a = a
perm-All P (Permᴰ.cons e d) (h, a) = (subst P e h, perm-All P d a)
perm-All P (Permᴰ.swap e f) (h, (k, a)) = (subst P f k, (subst P e h, a))
perm-All P (Permᴰ.trans d d') a = perm-All P d' (perm-All P d a)

perm-Separate : {ps qs : List Peak} → Permᴰ ps qs → Separate ps → Separate qs
perm-Separate Permᴰ.nil s = s
perm-Separate (Permᴰ.cons {a = p} {l₂ = qs} e d) (a, s) =
    (subst (λ q. All (Apart q) qs) e (perm-All (Apart p) d a), perm-Separate d s)
perm-Separate (Permᴰ.swap {a = p} {b = q} {a' = q'} {l = ps} e f) ((h, a), (b, s)) = (
  (
    subst (λ x. Apart q' x) e (subst (λ x. Apart x p) f (Apart-symm p q h)),
    subst (λ x. All (Apart x) ps) f b,
  ),
  (subst (λ x. All (Apart x) ps) e a, s),
)
perm-Separate (Permᴰ.trans d d') s = perm-Separate d' (perm-Separate d s)

perm-length : {ps qs : List Peak} → Permᴰ ps qs → length ps ≡ length qs
perm-length Permᴰ.nil = refl
perm-length (Permᴰ.cons e d) = ap suc (perm-length d)
perm-length (Permᴰ.swap e f) = refl
perm-length (Permᴰ.trans d d') = perm-length d ∙ perm-length d'

take-Separate : (n : ℕ) (ps : List Peak) → Separate ps → Separate (take n ps)
take-Separate zero ps s = tt
take-Separate (suc n) [] s = s
take-Separate (suc n) (p ∷ ps) (a, s) = (All-take (Apart p) n ps a, take-Separate n ps s)

pub take-Ascending : (n : ℕ) (ps : List Peak) → Ascending ps → Ascending (take n ps)
take-Ascending zero ps s = tt
take-Ascending (suc n) [] s = s
take-Ascending (suc n) (p ∷ ps) (a, s) = (All-take (AtLeast p.z) n ps a, take-Ascending n ps s)

module _ (cfg : Settings) (heat : Heat) where
  -- At most twenty peaks of candidate cells, of which no two are neighbours.
  pub record IsSound (ps : List Peak) : Type 0 where
    pub peaks : All (IsPeak cfg heat) ps
    pub separate : Separate ps
    pub bound : length ps ≤ 20

  remove_if-IsSound :
      (test : Peak → Bool) (ps : List Peak) → IsSound ps → IsSound (remove_if test ps)
  remove_if-IsSound test ps s = record {
    peaks = remove_if-All (IsPeak cfg heat) test ps s.peaks;
    separate = remove_if-Separate test ps s.separate;
    bound = omega (arith, remove_if-length test ps, s.bound);
  }

  if_IsSound :
      (b : Bool) {ps qs : List Peak} → IsSound ps → IsSound qs → IsSound (if b then ps else qs)
  if_IsSound true s t = s
  if_IsSound false s t = t

  filter_edge_line-IsSound :
      (on : Peak → Bool) (ps : List Peak) → IsSound ps → IsSound (filter_edge_line on ps)
  unfolding filter_edge_line
  filter_edge_line-IsSound on ps s = if_IsSound _ (remove_if-IsSound _ ps s) s

  edge_filter-IsSound : (ps : List Peak) → IsSound ps → IsSound (apply_edge_peak_filter ps)
  unfolding apply_edge_peak_filter
  edge_filter-IsSound ps s = filter_edge_line-IsSound _ _ (
      filter_edge_line-IsSound _ _ (filter_edge_line-IsSound _ _ (filter_edge_line-IsSound _ ps s)))

  pub filter_peaks-IsSound : (ps : List Peak) → IsSound ps → IsSound (filter_peaks cfg ps)
  unfolding filter_peaks apply_z8_filter apply_z1_filter
  filter_peaks-IsSound ps s = if_IsSound cfg.edge_peak_filter (edge_filter-IsSound _ z1) z1
    where
      z8 : IsSound (if cfg.z8_filter then apply_z8_filter ps else ps)
      z8 = if_IsSound cfg.z8_filter (remove_if-IsSound _ ps s) s

      z1 : IsSound (
          if cfg.z1_filter
          then apply_z1_filter cfg.threshold (if cfg.z8_filter then apply_z8_filter ps else ps)
          else if cfg.z8_filter
          then apply_z8_filter ps
          else ps)
      z1 = if_IsSound cfg.z1_filter (remove_if-IsSound _ _ z8) z8

  pub sorted-IsSound :
      (sort : List Peak → List Peak) (ps : List Peak)
      → SortsBySignal sort
      → IsSound ps
      → IsSound (sort ps)
  sorted-IsSound sort ps spec s = record {
    peaks = perm-All (IsPeak cfg heat) (spec.rearranges ps) s.peaks;
    separate = perm-Separate (spec.rearranges ps) s.separate;
    bound = omega (arith, perm-length (spec.rearranges ps), s.bound);
  }

  pub cap_peaks-IsSound : (ps : List Peak) → IsSound ps → IsSound (cap_peaks ps)
  unfolding cap_peaks
  cap_peaks-IsSound ps s =
      if_IsSound _
        (record {
          peaks = All-take (IsPeak cfg heat) 20 ps s.peaks;
          separate = take-Separate 20 ps s.separate;
          bound = omega (arith, length-take 20 ps, s.bound);
        })
        s
