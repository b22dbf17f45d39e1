-- ===== src/Extractor/Sever/Missing.antt =====
-- `prepare` finds the inputs before `cloneCodeRegion` severs the header.
use atrox.Prelude.{
  ℕ, insert, erase, ◌<◌, ◌≡◌, ◌≢◌, true, false, List, [], ◌∷◌, contains, some, none, ok, ◌==◌,
  arith, All,
}
use atrox.Args.Order.{IsDistinct}
use atrox.Extractor.Regions.{Ir, Values, defined_in_caller, find_inputs_outputs}
use atrox.Extractor.Inputs.{find_inputs_outputs_lem}
use atrox.Extractor.Code.{Phi, Code, value_from}
use atrox.Extractor.Sever.{HeaderSplitter, PhiCreator, count_preds, sever_split_phi_nodes}
use atrox.Extractor.Sever.Merged.{nodes_of, severed_merges, contains-new_region_old}

abbrev no_values : Values
no_values = record { inputs = []; outputs = [] }

-- What the region defines is no input of it.
region_value-input :
    (ir : Ir) (region : List ℕ) (h a : ℕ)
    → ir.is_argument a ≡ false
    → ir.parent a ≡ some h
    → contains region h ≡ true
    → contains (find_inputs_outputs ir region no_values).inputs a ≡ false
unfolding defined_in_caller
region_value-input ir region h a arg parent m =
    ground (arith, (find_inputs_outputs_lem ir region a).0)

-- Where the header is severed as above, each of its phi nodes is what the created one has from the old header. It is
-- defined in the caller of the new region, and yet no input, since the inputs were found in the region before.
pub severed_phi_missing :
    (splitter : HeaderSplitter) (creator : PhiCreator) (ir : Ir) (c : Code) (region : List ℕ)
    (h pn : ℕ) (inc : List (ℕ × ℕ)) (rest : List Phi) (o a : ℕ)
    → (h == c.entry) ≡ false
    → c.phis h ≡ (pn, inc) ∷ rest
    → 1 < count_preds false region inc
    → 0 < count_preds true region inc
    → IsDistinct (nodes_of (c.phis h))
    → ((v : ℕ) → contains (nodes_of (c.phis h)) (creator.created v) ≡ false)
    → contains region h ≡ true
    → contains region o ≡ false
    → o ≢ splitter.new_block c h
    → All (λ n. value_from (c.phis h) n o ≢ none) (nodes_of (c.phis h))
    → contains (nodes_of (c.phis h)) a ≡ true
    → ir.is_argument a ≡ false
    → ir.parent a ≡ some h
    → (d : Code) × (sever_split_phi_nodes splitter creator c region h
        ≡ ok (record {
          code = d;
          region = insert (erase region h) (splitter.new_block c h);
          header = splitter.new_block c h;
        }))
      × (value_from (d.phis (splitter.new_block c h)) (creator.created a) h ≡ some a)
      × (defined_in_caller ir (insert (erase region h) (splitter.new_block c h)) a ≡ true)
      × (contains (find_inputs_outputs ir region (record { inputs = []; outputs = [] })).inputs a
          ≡ false)
unfolding defined_in_caller
severed_phi_missing splitter creator ir c region h pn inc rest o a entry first outside inside
      distinct fresh m out off has here arg parent =
    let (d, ran, _, _, _, from, _, _) =
      severed_merges splitter creator c region h pn inc rest o a o entry first outside inside
        distinct fresh m out off has here off in
    (
      d,
      ran,
      from,
      ground (arith, contains-new_region_old splitter creator c region h),
      region_value-input ir region h a arg parent m,
    )
