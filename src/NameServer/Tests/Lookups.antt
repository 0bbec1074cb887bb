-- ===== src/NameServer/Tests/Lookups.antt =====
-- The theorems on the index, applied.
use distributed_document_sys.NameServer.Index.Runs.{
  answers, dict_answers, Operation, drop_name, bind, look, answers-dict_answers,
}
use distributed_document_sys.NameServer.Views.Shown.{IsItem, handle_req_view_lem}
use distributed_document_sys.NameServer.State.{done}
use distributed_document_sys.NameServer.Views.{in_view, is_internal, handle_req_view, view_item}
use distributed_document_sys.Protocol.{sent, Sent, view_hdr, max_files_in_system, res_view_hdr}
use distributed_document_sys.NameServer.Tests.{program, notes, one_file}
use distributed_document_sys.NameServer.Index.{empty}
use distributed_document_sys.Base.{
  [], some, none, All, length, List, strstr, ℕ, ◌++◌, ◌<◌, ◌∷◌, true, false, ◌≡◌, refl,
}

-- A name is missed, put in, found in the chain, found in the cache, removed, missed, put in at another
-- slot and found there.
abbrev history : List Operation
history =
    look notes
    ∷ bind notes 3
    ∷ look notes
    ∷ look notes
    ∷ drop_name notes
    ∷ look notes
    ∷ bind notes 4
    ∷ look notes
    ∷ []

answers-dict_answers_example : answers history empty ≡ dict_answers history (λ k. none)
unfolding program
answers-dict_answers_example = answers-dict_answers history (refl, (refl, tt))

answered : dict_answers history (λ k. none) ≡ none ∷ some 3 ∷ some 3 ∷ none ∷ some 4 ∷ []
unfolding program dict_answers
answered = refl

handle_req_view_lem_example :
    let p = in_view 7 false one_file in
    let item = λ (i : ℕ). view_item 7 true (one_file.file_catalog i) in
    (items : List Sent) × (handle_req_view 7 false true one_file
      ≡ done one_file (sent 7 res_view_hdr (view_hdr (length items)) ∷ items))
    × All (IsItem p item max_files_in_system) items
    × ((k : ℕ)
        → k < max_files_in_system
        → p k ≡ true
        → (before after : List Sent) × (items ≡ before ++ item k ∷ after))
handle_req_view_lem_example = handle_req_view_lem 7 false true one_file

-- alice is shown her file, bob is not.
shown_to_alice : in_view 7 false one_file 0 ≡ true
unfolding program in_view is_internal strstr
shown_to_alice = refl

hidden_from_bob : in_view 8 false one_file 0 ≡ false
unfolding program in_view is_internal strstr
hidden_from_bob = refl
