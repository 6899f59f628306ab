-- ===== src/Core/Graph/Cycles.antt =====
-- What `find_cycles` returns.
use crypto_arb_engine.Prelude.{
  ◌≡◌, refl, sym, ◌∙◌, ap, subst, ℕ, zero, suc, ◌+◌, ◌≤◌, Bool, true, false, Option, List, [], ◌∷◌,
  ◌++◌, map, String, leb, length, length-append, ◌&&◌, All, All-append, Any, Bool-cases, inl, inr,
  arith,
}
use crypto_arb_engine.Prelude.Dict.{string_key, contains}
use crypto_arb_engine.Prelude.Pigeonhole.{IsDistinct}
use crypto_arb_engine.Prelude.Sort.{sort-All}
use crypto_arb_engine.Float.{Float, ◌⊕◌, ◌<?◌, nought, sum_from}
use crypto_arb_engine.Core.Graph.Defs.{
  Edge, Cycle, Graph, Search, member, capped, edges_from, weight, close, step, loop, dfs, search,
  find_cycles, by_weight,
}

absent :
    (x : String) (xs : List String)
    → member x xs ≡ false
    → All (λ y. string_key.same y x ≡ false) xs
unfolding member
absent x [] h = tt
absent x (y ∷ ys) h = (ground arith, absent x ys (ground arith))

append-IsDistinct :
    (xs : List String) (x : String)
    → IsDistinct xs
    → All (λ y. string_key.same y x ≡ false) xs
    → IsDistinct (xs ++ (x ∷ []))
append-IsDistinct [] x h a = (tt, tt)
append-IsDistinct (y ∷ ys) x (h, hs) (a, as') =
    (All-append _ ys (x ∷ []) h (a, tt), append-IsDistinct ys x hs as')

map-snoc {ℓ κ} :
    {A : Type ℓ} {B : Type κ} (f : A → B) (xs : List A) (x : A)
    → map f (xs ++ (x ∷ [])) ≡ map f xs ++ (f x ∷ [])
map-snoc f [] x = refl
map-snoc f (y ∷ ys) x = ap (λ zs. f y ∷ zs) (map-snoc f ys x)

module _ {F : Type 0} where
  -- The edges lead from one asset to the other, each of them listed at the asset where it leaves.
  abbrev pub Leads : Graph F → String → List (Edge F) → String → Type 0
  Leads g u [] v = u ≡ v
  Leads g u (e ∷ es) v = Any (λ x. x ≡ e) (edges_from g u) × Leads g e.dst es v

  Leads-snoc :
      (g : Graph F) (u v : String) (es : List (Edge F)) (e : Edge F)
      → Leads g u es v
      → Any (λ x. x ≡ e) (edges_from g v)
      → Leads g u (es ++ (e ∷ [])) e.dst
  Leads-snoc g u v [] e h m = (subst (λ w. Any (λ x. x ≡ e) (edges_from g w)) (sym h) m, refl)
  Leads-snoc g u v (d ∷ es) e (h, hs) m = (h, Leads-snoc g d.dst v es e hs m)

  -- What every turn keeps, the loop keeps.
  pub loop-keeps :
      (P : Search F → Type 0) (turn : Edge F → Search F → Search F × Bool) (es : List (Edge F))
      → ((e : Edge F) → Any (λ x. x ≡ e) es → (s : Search F) → P s → P (turn e s).0)
      → (s : Search F) → P s
      → P (loop turn es s)
  unfolding loop
  loop-keeps P turn [] t s h = h
  loop-keeps P turn (e ∷ es) t s h =
      let next = t e (Any.here refl) s h in
      elim (Bool-cases (turn e s).1) [
        | inl k ↦ rw k next
        | inr k ↦ rw k (loop-keeps P turn es (λ d m. t d (Any.there m)) (turn e s).0 next)
      ]

module _ {F : Type 0} ⦃f : Float F⦄ (ln : F → F) where
  sum_from-snoc :
      (acc : F) (xs : List F) (x : F) → sum_from acc (xs ++ (x ∷ [])) ≡ sum_from acc xs ⊕ x
  unfolding sum_from
  sum_from-snoc acc [] x = refl
  sum_from-snoc acc (y ∷ ys) x = sum_from-snoc (acc ⊕ y) ys x

  -- A profitable simple cycle from `start` of three to `max_length` edges of the graph.
  pub record IsGain (g : Graph F) (start : String) (max_length : ℕ) (c : Cycle F) : Type 0 where
    pub closed : Leads g start c.edges start
    pub path : List String
    pub along : c.assets ≡ path ++ (start ∷ [])
    pub visits : c.assets ≡ start ∷ map (λ e. e.dst) c.edges
    pub simple : IsDistinct path
    pub long : 3 ≤ length c.edges
    pub short : length c.edges ≤ max_length
    pub weighs : c.total_weight ≡ sum_from nought (map (weight ln) c.edges)
    pub gains : c.total_weight <? nought ≡ true

  -- Where the search stands: the path from `start` to the current asset.
  record IsPath (g : Graph F) (start : String) (assets : List String) (edges : List (Edge F))
      (current : String) (total : F) : Type 0 where
    leads : Leads g start edges current
    along : assets ≡ start ∷ map (λ e. e.dst) edges
    simple : IsDistinct assets
    weighs : total ≡ sum_from nought (map (weight ln) edges)

  AllGain : Graph F → String → ℕ → Search F → Type 0
  AllGain g start n s = All (IsGain g start n) s.results

  extend :
      (g : Graph F) (start : String) (assets : List String) (edges : List (Edge F))
      (current : String) (total : F) (e : Edge F)
      → IsPath g start assets edges current total
      → Any (λ x. x ≡ e) (edges_from g current)
      → member e.dst assets ≡ false
      → IsPath g start (assets ++ (e.dst ∷ [])) (edges ++ (e ∷ [])) e.dst (total ⊕ weight ln e)
  extend g start assets edges current total e p m new = record {
    leads = Leads-snoc g start current edges e p.leads m;
    along =
        ap (λ as'. as' ++ (e.dst ∷ [])) p.along
        ∙ ap (λ ds. start ∷ ds) (sym (map-snoc (λ x. x.dst) edges e));
    simple = append-IsDistinct assets e.dst p.simple (absent e.dst assets new);
    weighs =
        ap (λ t. t ⊕ weight ln e) p.weighs
        ∙ sym (
            ap (sum_from nought) (map-snoc (weight ln) edges e)
            ∙ sum_from-snoc nought (map (weight ln) edges) (weight ln e));
  }

  close-AllGain :
      (g : Graph F) (start : String) (n : ℕ) (assets : List String) (edges : List (Edge F))
      (current : String) (total : F) (e : Edge F) (s : Search F)
      → IsPath g start assets edges current total
      → Any (λ x. x ≡ e) (edges_from g current)
      → string_key.same e.dst start ≡ true
      → 2 ≤ length edges
      → suc (length edges) ≤ n
      → AllGain g start n s
      → AllGain g start n (close ln start assets edges total e s)
  unfolding AllGain
  close-AllGain g start n assets edges current total e s p m back long short h =
      let home = (string_key.same_iff e.dst start).0 back in
      elim (Bool-cases (total ⊕ weight ln e <? nought)) [
        | inr k ↦ rw k h
        | inl k ↦ rw k (
            All-append _ s.results _ h (
              record {
                closed =
                    subst (λ v. Leads g start (edges ++ (e ∷ [])) v) home
                      (Leads-snoc g start current edges e p.leads m);
                path = assets;
                along = refl;
                visits =
                    ap (λ as'. as' ++ (start ∷ [])) p.along
                    ∙ ap (λ ds. start ∷ ds)
                        (ap (λ v. map (λ (x : Edge F). x.dst) edges ++ (v ∷ [])) (sym home)
                          ∙ sym (map-snoc (λ x. x.dst) edges e));
                simple = p.simple;
                long = omega (arith, length-append edges (e ∷ []));
                short = omega (arith, length-append edges (e ∷ []));
                weighs =
                    ap (λ t. t ⊕ weight ln e) p.weighs
                    ∙ sym (
                        ap (sum_from nought) (map-snoc (weight ln) edges e)
                        ∙ sum_from-snoc nought (map (weight ln) edges) (weight ln e));
                gains = k;
              },
              tt,
            ))
      ]

  step-AllGain :
      (descend : Edge F → Search F → Search F) (limit : Option ℕ) (g : Graph F) (start : String)
      (n : ℕ) (assets : List String) (edges : List (Edge F)) (current : String) (total : F)
      (e : Edge F) (s : Search F)
      → IsPath g start assets edges current total
      → Any (λ x. x ≡ e) (edges_from g current)
      → suc (length edges) ≤ n
      → ((t : Search F)
          → member e.dst assets ≡ false
          → AllGain g start n t
          → AllGain g start n (descend e t))
      → AllGain g start n s
      → AllGain g start n (step ln descend limit start assets edges total e s).0
  unfolding step AllGain
  step-AllGain descend limit g start n assets edges current total e s p m short d h =
      let counted = record s { expansions = s.expansions + 1 } in
      elim (Bool-cases (capped limit s.expansions)) [
        | inl k ↦ rw k h
        | inr k ↦ rw k (elim (Bool-cases (string_key.same e.dst start && leb 2 (length edges))) [
          | inl c ↦ rw c (
              close-AllGain g start n assets edges current total e counted p m (ground arith)
                (ground arith) short h)
          | inr c ↦ rw c (elim (Bool-cases (member e.dst assets)) [
            | inl v ↦ rw v h
            | inr v ↦ rw v (d counted v h)
          ])
        ])
      ]

  dfs-AllGain :
      (g : Graph F) (limit : Option ℕ) (start : String) (n left : ℕ) (assets : List String)
      (edges : List (Edge F)) (current : String) (total : F) (s : Search F)
      → IsPath g start assets edges current total
      → left + length edges ≡ n
      → AllGain g start n s
      → AllGain g start n (dfs ln g limit start left assets edges current total s)
  unfolding dfs
  dfs-AllGain g limit start n zero assets edges current total s p sum h = h
  dfs-AllGain g limit start n (suc left) assets edges current total s p sum h =
      let descend : Edge F → Search F → Search F = λ e.
        dfs ln g limit start left (assets ++ (e.dst ∷ [])) (edges ++ (e ∷ [])) e.dst
          (total ⊕ weight ln e) in
      loop-keeps (AllGain g start n) (step ln descend limit start assets edges total)
        (edges_from g current)
        (λ e m t ht.
          step-AllGain descend limit g start n assets edges current total e t p m (omega arith)
            (λ u new hu.
              dfs-AllGain g limit start n left (assets ++ (e.dst ∷ [])) (edges ++ (e ∷ [])) e.dst
                (total ⊕ weight ln e) u (extend g start assets edges current total e p m new)
                (omega (arith, length-append edges (e ∷ []))) hu)
            ht)
        s h

  -- Every cycle that `find_cycles` returns, whatever the cap on expansions, leads along edges of the
  -- graph from the start asset back to it, visits the assets that it names and none of them twice
  -- before it closes, has at least three edges and at most `max_length`, and has the sum of their
  -- weights, which is below zero.
  pub find_cycles-IsGain :
      (g : Graph F) (start : String) (max_length : ℕ) (max_expansions : Option ℕ)
      → All (IsGain g start max_length) (find_cycles ln g start max_length max_expansions)
  unfolding find_cycles search AllGain sum_from
  find_cycles-IsGain g start n limit = elim (Bool-cases (contains start g)) [
    | inl k ↦ rw k (
        sort-All (by_weight ln) (IsGain g start n) _ (
          dfs-AllGain g limit start n n (start ∷ []) [] start nought _
            (record { leads = refl; along = refl; simple = (tt, tt); weighs = refl }) (omega arith)
            tt))
    | inr k ↦ rw k tt
  ]
