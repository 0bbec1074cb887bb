-- ===== src/NameServer/Views.antt =====
-- name/handlers.c: `handle_req_view` and `handle_req_info`; `send_full_metadata` of name/catalog.c.
pub mod Shown
use distributed_document_sys.NameServer.State.{Server, Handled, FileMetadata, done}
use distributed_document_sys.Protocol.{
  sent, Sent, res_view_item_short, simple_header, res_info, view_hdr, full_metadata, res_view_hdr,
  view_item_short, res_error_not_found, MessageType, res_view_item_long, max_files_in_system,
}
use distributed_document_sys.Base.{
  List, not, codes, strstr, Bool, ℕ, ◌&&◌, some, zero, CString, suc, [], if◌then◌else◌, count_from,
  ◌||◌, none, ◌∷◌,
}
use distributed_document_sys.NameServer.Catalog.{user_of, has_read_access, with_slot}

unfoldable pub send_full_metadata : ℕ → FileMetadata → MessageType → Sent
send_full_metadata sock meta type = sent sock type (
    full_metadata meta.filename meta.owner meta.file_size meta.word_count meta.char_count
      meta.last_modified meta.last_accessed meta.access_list)

-- The names that no view shows.
unfoldable pub is_internal : CString → Bool
is_internal name =
    strstr name (codes ".bak")
    || strstr name (codes ".checkpoints/")
    || strstr name (codes "/.checkpoints/")

-- The test of both loops.
unfoldable pub in_view : ℕ → (flag_a : Bool) → Server → ℕ → Bool
in_view sock flag_a s i =
    let meta = s.file_catalog i in
    meta.active
    && (not (is_internal meta.filename) && (flag_a || has_read_access meta (user_of s sock)))

unfoldable pub view_item : ℕ → (flag_l : Bool) → FileMetadata → Sent
view_item sock flag_l meta =
    if flag_l
    then send_full_metadata sock meta res_view_item_long
    else sent sock res_view_item_short (view_item_short meta.filename)

-- `for (k = i; k < i + n; k++) if (p(k)) send(item(k));`
unfoldable pub send_items : (ℕ → Bool) → (ℕ → Sent) → ℕ → ℕ → List Sent
send_items p item zero i = []
send_items p item (suc n) i =
    let rest = send_items p item n (suc i) in if p i then item i ∷ rest else rest

unfoldable pub handle_req_view : ℕ → (flag_a flag_l : Bool) → Server → Handled
handle_req_view sock flag_a flag_l s = done s (
    sent sock res_view_hdr (view_hdr (count_from (in_view sock flag_a s) max_files_in_system 0))
    ∷ send_items (in_view sock flag_a s) (λ i. view_item sock flag_l (s.file_catalog i))
        max_files_in_system 0)

-- The permissions are not looked at.
unfoldable pub handle_req_info : ℕ → CString → Server → Handled
handle_req_info sock name s₀ = with_slot name s₀ λ found s. elim found [
  | none ↦ done s (simple_header sock res_error_not_found ∷ [])
  | some slot ↦ done s (send_full_metadata sock (s.file_catalog slot) res_info ∷ [])
]
