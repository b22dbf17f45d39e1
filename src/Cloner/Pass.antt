-- ===== src/Cloner/Pass.antt =====
-- `LoopBodyClonerPass::perform` of `lib/Transforms/Passes/LoopBodyClonerPass.cpp`. A file that is written is a record of the parts
-- of its name and of the report in it; the directory is not modelled.
use Prim.Native.String.{String}
use atrox.Prelude.{
  ℕ, arith, zero, suc, Option-cases, inl, inr, ◌≡◌, refl, ap, Bool, true, false, ◌||◌,
  if◌then◌else◌, List, [], ◌∷◌, ◌++◌, Option, some, none, map, length, reverse, Result, ok, ◌>>=◌,
}
use atrox.Llvm.{Cfg, SetOrder, PreservedAnalyses}
use atrox.Recognition.{IteratorRecognitionInfo}
use atrox.Functions.{Function, is_skipped}
use atrox.Payload.Weights.{Visit}
use atrox.Selection.Naive
use atrox.Selection.Iterator
use atrox.Selection.Weighted
use atrox.Cloner.Loops.{FunctionArgSpec, Context, clone_loops}

pub data SelectionStrategy : Type 0 where
  naive iterator_recognition_based weighted_iterator_recognition_based : SelectionStrategy

-- A function of the module, with what the analyses say of it.
pub record Target : Type 0 where
  pub function : Function
  pub context : Context
  pub cfg : Cfg
  pub order : SetOrder
  pub infos : IteratorRecognitionInfo
  pub visits : ℕ → List Visit
  pub loops : List ℕ

unfoldable pub select_blocks : SelectionStrategy → Target → ℕ → Result (List ℕ)
select_blocks naive t l = ok (Naive.calculate t.context.li l [])
select_blocks iterator_recognition_based t l = ok (Iterator.calculate t.context.li t.infos l [])
select_blocks weighted_iterator_recognition_based t l =
    Weighted.calculate t.cfg t.context.li t.order t.infos t.visits l []

pub record ReportFile : Type 0 where
  pub name : String
  pub extracted : Bool
  pub number : ℕ
  pub report : FunctionArgSpec

-- The loop over the reports, with `successCnt` and `failCnt`.
unfoldable pub write_reports : String → ℕ → ℕ → List FunctionArgSpec → List ReportFile
write_reports name successes failures [] = []
write_reports name successes failures (e ∷ es) = elim e.func [
  | some f ↦
      record { name = name; extracted = true; number = successes; report = e }
      ∷ write_reports name (suc successes) failures es
  | none ↦
      record { name = name; extracted = false; number = failures; report = e }
      ∷ write_reports name successes (suc failures) es
]

-- The options.
pub record Options : Type 0 where
  pub white_list : Option (List String)
  pub strategy : SelectionStrategy
  pub export_results : Bool
  pub export_fail_results : Bool

-- The functions that `workList` gets, in order.
unfoldable pub work_list : Option (List String) → List Target → List Target
work_list white_list [] = []
work_list white_list (t ∷ ts) =
    if is_skipped white_list t.function
    then work_list white_list ts
    else t ∷ work_list white_list ts

module _ (o : Options) where
  open o use {white_list, strategy, export_results, export_fail_results}

  unfoldable pub context_of : Target → Context
  unfolding select_blocks
  context_of t = record (t.context) {
    selector = select_blocks strategy t;
    store_success = export_results;
    store_fail = export_fail_results;
  }

  -- One function: whether it changed, and its files.
  unfoldable pub perform_one : Target → Result (Bool × List ReportFile)
  unfolding context_of write_reports
  perform_one t = clone_loops (context_of t) (some t.infos) t.loops [] >>= λ r. ok (
    r.0,
    if export_results || export_fail_results then write_reports t.function.name 0 0 r.1 else [],
  )

  unfoldable pub perform_each :
      List Target → Bool × List ReportFile → Result (Bool × List ReportFile)
  unfolding perform_one
  perform_each [] s = ok s
  perform_each (t ∷ ts) s =
      perform_one t >>= λ r. perform_each ts (if s.0 then true else r.0, s.1 ++ r.1)

  -- The list is worked off from its end.
  unfoldable pub perform : List Target → Result (Bool × List ReportFile)
  unfolding perform_each work_list
  perform ts = perform_each (reverse (work_list white_list ts)) (false, [])

-- `LoopBodyClonerPass::run`: with the change it preserves all analyses, without it none.
unfoldable pub preserved : Bool → PreservedAnalyses
preserved has_changed = if has_changed then PreservedAnalyses.all else PreservedAnalyses.none

unfoldable pub run : Options → List Target → Result (PreservedAnalyses × List ReportFile)
unfolding perform preserved
run o ts = perform o ts >>= λ t. ok (preserved t.0, t.1)

-- The numbers of the files of a kind.
abbrev pub numbers : Bool → List ReportFile → List ℕ
numbers kind [] = []
numbers true (e ∷ es) = if e.extracted then e.number ∷ numbers true es else numbers true es
numbers false (e ∷ es) = if e.extracted then numbers false es else e.number ∷ numbers false es

abbrev pub count_up : ℕ → ℕ → List ℕ
count_up n zero = []
count_up n (suc k) = n ∷ count_up (suc n) k

no_numbers :
    (kind : Bool) (s f : ℕ)
    → numbers kind [] ≡ count_up (if kind then s else f) (length (numbers kind []))
no_numbers true s f = refl
no_numbers false s f = refl

write_reports-numbers :
    (kind : Bool) (name : String) (s f : ℕ) (es : List FunctionArgSpec)
    → numbers kind (write_reports name s f es)
      ≡ count_up (if kind then s else f) (length (numbers kind (write_reports name s f es)))
unfolding write_reports
write_reports-numbers kind name s f [] = no_numbers kind s f
write_reports-numbers true name s f (e ∷ es) = elim (Option-cases e.func) [
  | inl n ↦ rw (write_reports, n) (write_reports-numbers true name s (suc f) es)
  | inr (k, n) ↦
      rw (write_reports, n) (ap (λ q. s ∷ q) (write_reports-numbers true name (suc s) f es))
]
write_reports-numbers false name s f (e ∷ es) = elim (Option-cases e.func) [
  | inl n ↦ rw (write_reports, n) (ap (λ q. f ∷ q) (write_reports-numbers false name s (suc f) es))
  | inr (k, n) ↦ rw (write_reports, n) (write_reports-numbers false name (suc s) f es)
]

write_reports-report :
    (name : String) (s f : ℕ) (es : List FunctionArgSpec)
    → map ReportFile.report (write_reports name s f es) ≡ es
unfolding write_reports
write_reports-report name s f [] = refl
write_reports-report name s f (e ∷ es) = elim (Option-cases e.func) [
  | inl n ↦ ground (arith, write_reports-report name s (suc f) es)
  | inr (k, n) ↦ ground (arith, write_reports-report name (suc s) f es)
]

-- The reports of a function are written each to a file, in order, and of each kind the files are numbered from 0
-- on without a gap, so that no two of them have the same name.
pub write_reports_lem :
    (name : String) (es : List FunctionArgSpec) (kind : Bool)
    → (map ReportFile.report (write_reports name 0 0 es) ≡ es)
      × (numbers kind (write_reports name 0 0 es)
          ≡ count_up 0 (length (numbers kind (write_reports name 0 0 es))))
write_reports_lem name es true =
    (write_reports-report name 0 0 es, write_reports-numbers true name 0 0 es)
write_reports_lem name es false =
    (write_reports-report name 0 0 es, write_reports-numbers false name 0 0 es)
