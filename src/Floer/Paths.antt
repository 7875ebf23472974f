-- ===== src/Floer/Paths.antt =====
-- Every path leads to a critical point of a higher index.
use holographic_market.Base.{
  ℕ, zero, suc, ◌*◌, ◌/◌, ◌%◌, ◌<◌, ◌≡◌, refl, Bool, true, false, List, Option, none, some, arith,
  ltb, ltb→lt, if◌then◌else◌, length, get_elem?,
}
use holographic_market.Base.Int.{pos}
use holographic_market.Base.Double.{Double}
use holographic_market.Hodge.{Slots, no_slots}
use holographic_market.Floer.{
  k_floer_max_criticals, grade, Floats, CriticalPoint, InstantonPath, path_between, path_of,
  instanton_at, instantons_from, find_instantons,
}
use holographic_market.Floer.Filling.{AllFilled, Granted, claim_some-AllFilled}

module _ {W : Type 0} ⦃d : Double W⦄ (fl : Floats W) (curl coexact : ℕ → W) where
  -- The path leads from a critical point of the list to one of a higher index.
  pub record IsUpward (criticals : List (CriticalPoint W)) (p : InstantonPath W) : Type 0 where
    pub src : ℕ
    pub dst : ℕ
    pub a : CriticalPoint W
    pub b : CriticalPoint W
    pub from : p.src_critical ≡ pos src
    pub to : p.dst_critical ≡ pos dst
    pub at_src : get_elem? criticals src ≡ some a
    pub at_dst : get_elem? criticals dst ≡ some b
    pub rises : grade a.morse_index < grade b.morse_index

  path_of-IsUpward :
      (criticals : List (CriticalPoint W)) (i j : ℕ) (oa ob : Option (CriticalPoint W))
      → get_elem? criticals i ≡ oa
      → get_elem? criticals j ≡ ob
      → Granted (IsUpward criticals) (path_of fl curl coexact i oa j ob)
  path_of-IsUpward criticals i j none ob p q = tt
  path_of-IsUpward criticals i j (some a) none p q = tt
  path_of-IsUpward criticals i j (some a) (some b) p q =
      by_tests (ltb (grade a.morse_index) (grade b.morse_index))
        (ltb (grade b.morse_index) (grade a.morse_index)) (ltb→lt _ _) (ltb→lt _ _)
    where
      by_tests :
          (u v : Bool)
          → (u ≡ true → grade a.morse_index < grade b.morse_index)
          → (v ≡ true → grade b.morse_index < grade a.morse_index)
          → Granted (IsUpward criticals) (
              if u
              then some (path_between fl curl coexact i a j b)
              else if v
              then some (path_between fl curl coexact j b i a)
              else none)
      by_tests true v up down = record {
        src = i;
        dst = j;
        a = a;
        b = b;
        from = refl;
        to = refl;
        at_src = p;
        at_dst = q;
        rises = up refl;
      }
      by_tests false true up down = record {
        src = j;
        dst = i;
        a = b;
        b = a;
        from = refl;
        to = refl;
        at_src = q;
        at_dst = p;
        rises = down refl;
      }
      by_tests false false up down = tt

  instanton_at-IsUpward :
      (criticals : List (CriticalPoint W)) (tid : ℕ)
      → Granted (IsUpward criticals) (instanton_at fl curl coexact criticals tid)
  unfolding instanton_at
  instanton_at-IsUpward criticals tid =
      by_order (ltb (tid / length criticals) (tid % length criticals))
    where
      by_order :
          (b : Bool)
          → Granted (IsUpward criticals) (
              if b
              then path_of fl curl coexact
                  (tid / length criticals)
                  (get_elem? criticals (tid / length criticals))
                  (tid % length criticals)
                  (get_elem? criticals (tid % length criticals))
              else none)
      by_order true = path_of-IsUpward criticals _ _ _ _ refl refl
      by_order false = tt

  instantons_from-AllFilled :
      (limit : ℕ) (criticals : List (CriticalPoint W)) (tid more : ℕ) (s : Slots (InstantonPath W))
      → AllFilled (IsUpward criticals) limit s
      → AllFilled
          (IsUpward criticals)
          limit
          (instantons_from fl curl coexact limit criticals tid more s)
  unfolding instantons_from
  instantons_from-AllFilled limit criticals tid zero s h = h
  instantons_from-AllFilled limit criticals tid (suc more) s h =
      instantons_from-AllFilled limit criticals (suc tid) more _ (
        claim_some-AllFilled (IsUpward criticals) limit s
          (instanton_at fl curl coexact criticals tid) (instanton_at-IsUpward criticals tid) h)

  pub find_instantons-AllUpward :
      (criticals : List (CriticalPoint W))
      → AllFilled
          (IsUpward criticals)
          (k_floer_max_criticals * k_floer_max_criticals)
          (find_instantons fl curl coexact criticals)
  unfolding find_instantons
  find_instantons-AllUpward criticals =
      instantons_from-AllFilled (k_floer_max_criticals * k_floer_max_criticals) criticals 0
        (length criticals * length criticals) no_slots (tt, omega arith, omega arith)
