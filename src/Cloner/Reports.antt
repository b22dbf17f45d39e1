-- ===== src/Cloner/Reports.antt =====
-- What `cloneLoops` reports.
use mathlib.Core.List.{map-append, append_assoc, append-nil}
use atrox.Prelude.{
  ℕ, ◌+◌, ◌≡◌, refl, sym, ap, ◌∙◌, Bool, true, false, not, ◌&&◌, ◌||◌, if◌then◌else◌, List, [], ◌∷◌,
  ◌++◌, map, any, Option, some, none, ◌==◌, ==_refl, length, contains, Result, Error, ok, err,
  arith, Bool-cases, List-cases, inl, inr,
}
use atrox.Recognition.{IteratorInfo, IteratorRecognitionInfo}
use atrox.Args.Directions.{generate_arg_direction-length}
use atrox.Cloner.Calls.{detect, has_calls}
use atrox.Cloner.Loops.{
  FunctionArgSpec, Extraction, Context, info_of, reorder_blocks, has_one_iterator, store_function,
  store_extraction, clone_blocks, clone_loop, store_failure, clone_each, clone_loops, make_specs,
  variances,
}

abbrev pub succeeded : FunctionArgSpec → Bool
succeeded r = elim r.func [ none ↦ false | some f ↦ true ]

any-concat :
    (rs : List FunctionArgSpec) (r : FunctionArgSpec)
    → any succeeded (rs ++ r ∷ []) ≡ (any succeeded rs || succeeded r)
any-concat [] r = ground arith
any-concat (x ∷ rs) r = ground (arith, any-concat rs r)

abbrev loops_of : List FunctionArgSpec → List ℕ
loops_of = map FunctionArgSpec.loop

loops_step :
    (rs now later : List FunctionArgSpec) (r : FunctionArgSpec) (l : ℕ) (ls : List ℕ)
    → now ≡ rs ++ r ∷ []
    → r.loop ≡ l
    → loops_of later ≡ loops_of now ++ ls
    → loops_of later ≡ loops_of rs ++ l ∷ ls
loops_step rs now later r l ls new of all =
    all
    ∙ ap (λ q. loops_of q ++ ls) new
    ∙ ap (λ q. q ++ ls) (map-append FunctionArgSpec.loop rs (r ∷ []))
    ∙ append_assoc (loops_of rs) (r.loop ∷ []) ls
    ∙ ap (λ q. loops_of rs ++ q ∷ ls) of

-- What the parameters are relied on for, at each of some loops: the selection returns, and there is iterator
-- information; if a block is selected, the extraction of the selected blocks in order returns, its function has an argument
-- for each pure input and output, and the queries return.
pub record IsTotal (c : Context) (infos : IteratorRecognitionInfo) (loops : List ℕ) : Type 0 where
  pub selects : (l : ℕ) → contains loops l ≡ true → (bs : List ℕ) × (c.selector l ≡ ok bs)
  pub known : (l : ℕ) → contains loops l ≡ true → (i : IteratorInfo) × (infos l ≡ some i)
  pub extracts :
      (l b : ℕ) (rest : List ℕ) (i : IteratorInfo)
      → contains loops l ≡ true
      → c.selector l ≡ ok (b ∷ rest)
      → infos l ≡ some i
      → (e : Extraction) × (c.extract (reorder_blocks c (b ∷ rest) l) l i ≡ ok e)
        × ((made : Option ℕ) × (e.function ≡ ok made))
        × (length e.arg_names ≡ length e.pure_inputs + length e.outputs)
  pub reads :
      (l b : ℕ) (rest : List ℕ) (v : ℕ)
      → contains loops l ≡ true
      → c.selector l ≡ ok (b ∷ rest)
      → (w : Bool) × ((c.queries (reorder_blocks c (b ∷ rest) l)).read v ≡ ok w)
  pub writes :
      (l b : ℕ) (rest : List ℕ) (v : ℕ)
      → contains loops l ≡ true
      → c.selector l ≡ ok (b ∷ rest)
      → (w : Bool) × ((c.queries (reorder_blocks c (b ∷ rest) l)).write v ≡ ok w)

module _ (c : Context) (infos : IteratorRecognitionInfo) (whole : List ℕ)
    (total : IsTotal c infos whole) (success : c.store_success ≡ true)
    (fail : c.store_fail ≡ true) where
  -- The queries of some blocks return.
  Answered : List ℕ → Type 0
  Answered blocks =
      ((v : ℕ) → (w : Bool) × ((c.queries blocks).read v ≡ ok w))
      × ((v : ℕ) → (w : Bool) × ((c.queries blocks).write v ≡ ok w))

  -- A run on a loop returns and leaves one more report, which is of the loop and says whether it succeeded.
  Reported : ℕ → List FunctionArgSpec → Result (Bool × List FunctionArgSpec) → Type 0
  Reported l info run =
      (t : Bool × List FunctionArgSpec) × (run ≡ ok t)
      × ((r : FunctionArgSpec) × (store_failure c l t ≡ info ++ r ∷ [])
          × (r.loop ≡ l)
          × (succeeded r ≡ t.0))

  fails : (l : ℕ) (info : List FunctionArgSpec) → Reported l info (ok (false, info))
  unfolding Reported store_failure
  fails l info =
      ((false, info), refl, (record { func = none; loop = l; args = [] }, rw fail refl, refl, refl))

  stores :
      (blocks : List ℕ) (l : ℕ) (e : Extraction) (f : ℕ) (info : List FunctionArgSpec)
      → Answered blocks
      → length e.arg_names ≡ length e.pure_inputs + length e.outputs
      → Reported l info (store_function c true blocks l e f info)
  unfolding Reported Answered store_failure store_function
  stores blocks l e f info (reads, writes) n =
      let (dirs, d, m) =
        generate_arg_direction-length c.is_pointer e.pure_inputs e.outputs (c.queries blocks) reads
          writes in
      let report : FunctionArgSpec = record {
        func = some f;
        loop = l;
        args = make_specs e.arg_names dirs (variances c true l e dirs);
      } in
      let same : ((length e.arg_names == length dirs) ≡ true) =
        rw (n ∙ sym m) (==_refl (length dirs)) in
      (
        (true, info ++ report ∷ []),
        rw (store_function, d, success, same) refl,
        (report, refl, refl, refl),
      )

  extracted :
      (blocks : List ℕ) (l : ℕ) (e : Extraction) (info : List FunctionArgSpec)
      → Answered blocks
      → ((made : Option ℕ) × (e.function ≡ ok made))
      → length e.arg_names ≡ length e.pure_inputs + length e.outputs
      → Reported l info (store_extraction c true blocks l e info)
  unfolding store_extraction
  extracted blocks l e info q (none, x) n = rw (store_extraction, x) (fails l info)
  extracted blocks l e info q (some f, x) n =
      rw (store_extraction, x) (stores blocks l e f info q n)

  cloned :
      (l b : ℕ) (rest : List ℕ) (info : List FunctionArgSpec)
      → contains whole l ≡ true
      → c.selector l ≡ ok (b ∷ rest)
      → Reported l info (clone_blocks c (some infos) true (reorder_blocks c (b ∷ rest) l) l info)
  unfolding Answered clone_blocks info_of
  cloned l b rest info m s =
      let blocks = reorder_blocks c (b ∷ rest) l in
      let (i, k) = total.known l m in
      let (e, x, made, n) = total.extracts l b rest i m s k in
      let q : Answered blocks =
        ((λ v. total.reads l b rest v m s), (λ v. total.writes l b rest v m s)) in
      elim (Bool-cases (c.is_set i && not (has_one_iterator c i e.pure_inputs))) [
        | inl y ↦ rw (clone_blocks, info_of, k, x, y) (fails l info)
        | inr y ↦ rw (clone_blocks, info_of, k, x, y) (extracted blocks l e info q made n)
      ]

  loop-Reported :
      (l : ℕ) (info : List FunctionArgSpec)
      → contains whole l ≡ true
      → Reported l info (clone_loop c (some infos) true l info)
  unfolding clone_loop
  loop-Reported l info m =
      let (bs, s) = total.selects l m in
      elim (List-cases bs) [
        | inl y ↦ rw (clone_loop, s, y) (fails l info)
        | inr (b, rest, y) ↦
            let blocks = reorder_blocks c (b ∷ rest) l in
            elim (Bool-cases (c.skip_calls && has_calls (detect true [] (c.instructions blocks)))) [
              | inl z ↦ rw (clone_loop, s, y, z) (fails l info)
              | inr z ↦ rw (clone_loop, s, y, z) (cloned l b rest info m (s ∙ ap ok y))
            ]
      ]

  each-Reported :
      (loops : List ℕ) (s : Bool × List FunctionArgSpec)
      → ((l : ℕ) → contains loops l ≡ true → contains whole l ≡ true)
      → s.0 ≡ any succeeded s.1
      → (t : Bool × List FunctionArgSpec) × (clone_each c (some infos) loops s ≡ ok t)
        × (map FunctionArgSpec.loop t.1 ≡ map FunctionArgSpec.loop s.1 ++ loops)
        × (t.0 ≡ any succeeded t.1)
  unfolding clone_each Reported
  each-Reported [] s f h = (s, refl, sym (append-nil (map FunctionArgSpec.loop s.1)), h)
  each-Reported (l ∷ ls) s f h =
      let (t, e, (r, new, of, flag)) = loop-Reported l s.1 (f l (ground (arith, ==_refl l))) in
      let next : (Bool × List FunctionArgSpec) = (if t.0 then true else s.0, store_failure c l t) in
      let keeps : next.0 ≡ any succeeded next.1 =
        rw new (let a = any-concat s.1 r in ground arith) in
      let (u, e', loops', flag') = each-Reported ls next (λ k m. f k (ground (arith, m))) keeps in
      (u, rw (clone_each, e) e', loops_step s.1 next.1 u.1 r l ls new of loops', flag')

  -- Where both kinds of reports are stored and the parameters return for the loops, the cloning of the loops returns with
  -- exactly one report for each loop, in order, and says that something changed exactly if some report has a function.
  pub clone_loops_lem :
      (t : Bool × List FunctionArgSpec) × (clone_loops c (some infos) whole [] ≡ ok t)
      × (map FunctionArgSpec.loop t.1 ≡ whole)
      × (t.0 ≡ any succeeded t.1)
  unfolding clone_loops
  clone_loops_lem = each-Reported whole (false, []) (λ l m. m) refl

-- Where a selected loop has no iterator information, the code says so and then reads the missing value.
pub clone_loop_undefined :
    (c : Context) (infos : IteratorRecognitionInfo) (l b : ℕ) (bs : List ℕ)
    (info : List FunctionArgSpec)
    → infos l ≡ none
    → c.selector l ≡ ok (b ∷ bs)
    → c.skip_calls ≡ false
    → clone_loop c (some infos) true l info ≡ err Error.assertion
unfolding clone_loop clone_blocks info_of
clone_loop_undefined c infos l b bs info k s n =
    rw (clone_loop, s, n, clone_blocks, info_of, k) refl
