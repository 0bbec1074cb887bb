-- ===== src/Storage/Tests/Checkpoints.antt =====
-- Concrete files on a storage server, and the theorems on checkpoints and undo applied to them.
use distributed_document_sys.Storage.Document.{sentence, flush_list_to_file}
use distributed_document_sys.Storage.Checkpoints.Created.{
  handle_ss_viewcheckpoint-handle_ss_checkpoint,
}
use distributed_document_sys.Base.{
  arith, str_eq, List, strcmp, ℕ, Option, Bool, codes, if◌then◌else◌, CString, ◌≡◌, ◌∷◌, some, [],
  none, refl, ◌||◌, false,
}
use distributed_document_sys.Storage.Checkpoints.Restore.{IsPlace}
use distributed_document_sys.Protocol.{res_ss_file_ok, res_ok, res_error}
use distributed_document_sys.Storage.Edits.{SentenceNode}
use distributed_document_sys.Storage.Checkpoints.Swap.{handle_ss_undo-removes, HasBackup}
use distributed_document_sys.Storage.Checkpoints.History.{
  handle_ss_undo-committed, handle_ss_undo-handle_ss_revert, handle_ss_undo-write_back,
}
use distributed_document_sys.Storage.Checkpoints.{
  prefixes, handle_ss_checkpoint, handle_ss_undo, handle_ss_revert, handle_ss_viewcheckpoint,
  make_dirs,
}
use distributed_document_sys.Storage.Statistics.{header, bytes}
use distributed_document_sys.Storage.Disk.{
  remove, write, copy, mkdir, exists, Disk, can_write, parent_from, undo_tag, backup_path,
  checkpoint_path,
}
use distributed_document_sys.Storage.Sessions.{values, Storage, write_back}

abbrev a : CString
a = codes "a"

abbrev tag : CString
tag = codes "t"

abbrev dirs : CString → Bool
dirs p = str_eq p [] || (str_eq p (codes ".checkpoints") || str_eq p (codes ".checkpoints/a"))

-- The file, and whatever else there is.
abbrev disk : (CString → Option (List ℕ)) → Disk
disk others = record {
  files = λ p. if str_eq p a then some (codes "now") else others p;
  is_dir = dirs;
}

-- The same without a directory for checkpoints.
abbrev plain : (CString → Option (List ℕ)) → Disk
plain others = record (disk others) { is_dir = λ p. str_eq p [] }

abbrev nothing : CString → Option (List ℕ)
nothing p = none

abbrev file_at : CString → CString → CString → Option (List ℕ)
file_at path content p = if str_eq p path then some content else none

abbrev stamp : CString → ℕ × ℕ
stamp p = (1, 2)

program : Unit {0}
unfolding strcmp can_write parent_from exists make_dirs prefixes mkdir copy write remove
program = tt

a-IsPlace : (others : CString → Option (List ℕ)) → IsPlace a (disk others)
unfolding program
a-IsPlace others = record { file = refl; backup = refl; undo = refl; redo = refl }

handle_ss_undo-handle_ss_revert_example :
    let (out, d₁) =
      handle_ss_revert a tag (disk (file_at (checkpoint_path a tag) (codes "then"))) in
    let d₂ = (handle_ss_undo stamp a d₁).1 in
    let d₃ = (handle_ss_undo stamp a d₂).1 in
    (out ≡ header res_ok ∷ [])
    × (d₁.files a ≡ some (codes "then"))
    × (d₂.files a ≡ some (codes "now"))
    × (d₃.files a ≡ some (codes "then"))
unfolding program
handle_ss_undo-handle_ss_revert_example =
    handle_ss_undo-handle_ss_revert stamp a tag (codes "now") (codes "then")
      (disk (file_at (checkpoint_path a tag) (codes "then"))) (a-IsPlace _) (λ e. ground (arith, e))
      refl refl refl

abbrev storage : Disk → Storage
storage d = record {
  active_documents =
      λ i. record { active = false; filename = []; doc_head = []; num_users_editing = 0 };
  write_sessions = λ i. record {
    active = false;
    doc_index = 0;
    sentence_ptr = 0;
    original_word_count = 0;
    edit_ops = [];
    virtual_word_count = 0;
  };
  global_locks = λ i. record { active = false; filename = []; sentence_ptr = 0; sock_fd = 0 };
  disk = d;
  allocated = 0;
}

abbrev document : List SentenceNode
document = record { address = 1; value = sentence (codes "Done" ∷ []) b'.' } ∷ []

handle_ss_undo-write_back_example :
    let s = storage (disk (file_at (checkpoint_path a undo_tag) (codes "before"))) in
    (handle_ss_undo stamp a (write_back a document s).disk).1.files a ≡ some (codes "before")
unfolding program
handle_ss_undo-write_back_example =
    handle_ss_undo-write_back stamp a (codes "now") (codes "before") document
      (storage (disk (file_at (checkpoint_path a undo_tag) (codes "before"))))
      (record { undo_place = a-IsPlace _; undo_now = refl; undo_saved = refl })

with_backup :
    HasBackup a (codes "now") (some (codes "old")) (plain (file_at (backup_path a) (codes "old")))
unfolding program
with_backup = record {
  file = refl;
  backup = refl;
  swap = refl;
  now = refl;
  before = refl;
  no_swap = refl;
  no_undo = refl;
  no_redo = refl;
}

handle_ss_undo-committed_example :
    let s = storage (plain (file_at (backup_path a) (codes "old"))) in
    HasBackup a
      (codes "now")
      (some (flush_list_to_file (values document)))
      (handle_ss_undo stamp a (write_back a document s).disk).1
handle_ss_undo-committed_example =
    handle_ss_undo-committed stamp a (codes "now") (some (codes "old")) document
      (storage (plain (file_at (backup_path a) (codes "old")))) with_backup

without_backup : HasBackup a (codes "now") none (plain nothing)
unfolding program
without_backup = record {
  file = refl;
  backup = refl;
  swap = refl;
  now = refl;
  before = refl;
  no_swap = refl;
  no_undo = refl;
  no_redo = refl;
}

handle_ss_undo-removes_example :
    let (out, e) = handle_ss_undo stamp a (plain nothing) in
    (out ≡ header res_ok ∷ []) × (e.files a ≡ none) × (e.files (backup_path a) ≡ some (codes "now"))
handle_ss_undo-removes_example =
    handle_ss_undo-removes a (codes "now") (plain nothing) stamp without_backup

handle_ss_viewcheckpoint-handle_ss_checkpoint_example :
    let (out, d') = handle_ss_checkpoint a tag (plain nothing) in
    (out ≡ header res_ok ∷ [])
    × (d'.files a ≡ some (codes "now"))
    × (handle_ss_viewcheckpoint a tag d' ≡ header res_ss_file_ok ∷ bytes (codes "now") ∷ [])
    × (handle_ss_checkpoint a tag d' ≡ (header res_error ∷ [], d'))
unfolding program
handle_ss_viewcheckpoint-handle_ss_checkpoint_example =
    handle_ss_viewcheckpoint-handle_ss_checkpoint a tag (codes "now") (plain nothing) refl refl refl
      refl
