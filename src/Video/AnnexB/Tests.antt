-- ===== src/Video/AnnexB/Tests.antt =====
-- An avcC record with two sequence parameter sets and one picture parameter set.
use vrcstreamer.Common.{ℕ, ◌*◌, ◌≤◌, ◌<◌, ◌≡◌, some, List, [], ◌∷◌, ◌++◌, arith, length}
use vrcstreamer.Video.AnnexB.{annex_b, avc_description_to_annex_b}
use vrcstreamer.Video.AnnexB.Record.{avc_record, avc_description_to_annex_b-record}
use vrcstreamer.Video.AnnexB.Size.{length-avc_description_to_annex_b}

abbrev sps : List (List ℕ)
sps = (103 ∷ 66 ∷ []) ∷ (103 ∷ []) ∷ []

abbrev pps : List (List ℕ)
pps = (104 ∷ 206 ∷ []) ∷ []

avc_description_to_annex_b-record_example :
    avc_description_to_annex_b (some (avc_record 66 224 31 sps pps (7 ∷ [])))
    ≡ some (annex_b (sps ++ pps))
avc_description_to_annex_b-record_example =
    avc_description_to_annex_b-record 66 224 31 sps pps (7 ∷ []) (omega arith) (omega arith)

length-avc_description_to_annex_b_example :
    (0 < length (annex_b (sps ++ pps)))
    × (length (annex_b (sps ++ pps)) ≤ 2 * length (avc_record 66 224 31 sps pps (7 ∷ [])))
length-avc_description_to_annex_b_example =
    length-avc_description_to_annex_b (avc_record 66 224 31 sps pps (7 ∷ [])) (annex_b (sps ++ pps))
      (avc_description_to_annex_b-record 66 224 31 sps pps (7 ∷ []) (omega arith) (omega arith))
