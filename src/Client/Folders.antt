-- ===== src/Client/Folders.antt =====
-- client/client.c: the commands on folders and checkpoints, and the execution of a file.
use Prim.Native.String.{String}
use distributed_document_sys.Client.Transfer.{send_filename_request}
use distributed_document_sys.Base.{
  Bool, List, codes, ℕ, zero, CString, ◌∷◌, [], ◌==◌, if◌then◌else◌, ◌-◌, suc, false, true,
}
use distributed_document_sys.Storage.Stdio.{print_int}
use distributed_document_sys.Protocol.{
  checkpoint_request, req_createfolder, res_ok, max_filename, folder_request, exec_output,
  listcheckpoints_request, res_checkpoint_list, res_exec_done, res_view_item_short,
  res_error_not_found, res_ss_file_ok, req_checkpoint, checkpoint_list, res_error_access_denied,
  file_content, req_listcheckpoints, max_checkpoint_tag, req_move, req_exec, req_viewcheckpoint,
  req_revert, MessageType, view_item_short, res_view_hdr, move_request, res_exec_output, view_hdr,
  req_viewfolder,
}
use distributed_document_sys.Client.Wire.{
  M, pure, fault, ◌>>=◌, ◌>>◌, say, printf, send, recv_over, recv_body, strncpy, Frame, heading,
  body, advance, returned,
}
use distributed_document_sys.Client.Files.{say_of, with_words, with_word}

folder_created : CString → MessageType → M (Unit {0})
folder_created foldername res_ok = say_of "Folder '" foldername "' created successfully.\n"
folder_created foldername _ = say "Error: Failed to create folder.\n"

unfoldable pub handle_create_folder : ℕ → CString → M (Unit {0})
unfolding folder_created
handle_create_folder sock args = with_word args "Usage: CREATEFOLDER <foldername>\n" λ foldername.
    do
      send sock req_createfolder (folder_request (strncpy max_filename foldername))
      t ← recv_over req_createfolder sock
      folder_created foldername t

-- "<before>'<a>'<middle>'<b>'<after>"
abbrev pub say_both : String → CString → String → CString → String → M (Unit {0})
say_both before a middle b after = printf (codes before ∷ a ∷ codes middle ∷ b ∷ codes after ∷ [])

moved : CString → CString → MessageType → M (Unit {0})
moved filename foldername res_ok =
    say_both "File '" filename "' moved to folder '" foldername "' successfully.\n"
moved filename foldername res_error_not_found = say "Error: File not found.\n"
moved filename foldername res_error_access_denied =
    say "Error: Access denied. Only owner can move files.\n"
moved filename foldername _ = say "Error: Failed to move file.\n"

unfoldable pub handle_move : ℕ → CString → M (Unit {0})
unfolding moved
handle_move sock args =
    with_words args "Usage: MOVE <filename> <foldername>\n" λ filename foldername. do
      send sock req_move
          (move_request (strncpy max_filename filename) (strncpy max_filename foldername))
      t ← recv_over req_move sock
      moved filename foldername t

-- Where the header is of another type, nothing more is read; `type` is the header's before the read.
folder_items_read : ℕ → ℕ → MessageType → M (Unit {0})
folder_items_read sock zero type = pure tt
folder_items_read sock (suc n) type = do
  t ← recv_over type sock
  elim t [
    | res_view_item_short ↦ do
      p ← recv_body sock
      elim p [
        | view_item_short filename ↦ printf (codes "  - " ∷ filename ∷ codes "\n" ∷ [])
        | _ ↦ fault
      ]
    | _ ↦ pure tt
  ]
  folder_items_read sock n t

folder_answered : ℕ → CString → MessageType → M (Unit {0})
unfolding folder_items_read
folder_answered sock foldername res_view_hdr = do
  p ← recv_body sock
  elim p [
    | view_hdr file_count ↦ do
      printf (
          codes "Files in folder '"
          ∷ foldername
          ∷ codes "' ("
          ∷ print_int file_count
          ∷ codes " files):\n"
          ∷ [])
      folder_items_read sock file_count res_view_hdr
    | _ ↦ fault
  ]
folder_answered sock foldername _ = say "Error: Failed to view folder.\n"

unfoldable pub handle_view_folder : ℕ → CString → M (Unit {0})
unfolding folder_answered
handle_view_folder sock args = with_word args "Usage: VIEWFOLDER <foldername>\n" λ foldername. do
  send sock req_viewfolder (folder_request (strncpy max_filename foldername))
  t ← recv_over req_viewfolder sock
  folder_answered sock foldername t

-- The request of a checkpoint command.
abbrev pub send_checkpoint_request : ℕ → MessageType → CString → CString → M (Unit {0})
send_checkpoint_request sock type filename tag =
    send sock type
      (checkpoint_request (strncpy max_filename filename) (strncpy max_checkpoint_tag tag))

checkpointed : CString → CString → MessageType → M (Unit {0})
checkpointed filename tag res_ok =
    say_both "Checkpoint '" tag "' created successfully for file '" filename "'.\n"
checkpointed filename tag _ =
    say
      "Error: Failed to create checkpoint (file not found, tag already exists, or permission denied).\n"

unfoldable pub handle_checkpoint : ℕ → CString → M (Unit {0})
unfolding checkpointed
handle_checkpoint sock args =
    with_words args "Usage: CHECKPOINT <filename> <checkpoint_tag>\n" λ filename tag. do
      send_checkpoint_request sock req_checkpoint filename tag
      t ← recv_over req_checkpoint sock
      checkpointed filename tag t

-- The payload of so many bytes as its header says.
checkpoint_shown : ℕ → CString → CString → MessageType → M (Unit {0})
checkpoint_shown sock filename tag res_ss_file_ok = do
  say_both "\n=== Checkpoint '" tag "' content for '" filename "' ===\n"
  p ← recv_body sock
  elim p [ file_content content ↦ printf (content ∷ []) | _ ↦ fault ]
  say "\n=== End of checkpoint ===\n"
checkpoint_shown sock filename tag _ = say "Error: Checkpoint not found or permission denied.\n"

unfoldable pub handle_view_checkpoint : ℕ → CString → M (Unit {0})
unfolding checkpoint_shown
handle_view_checkpoint sock args =
    with_words args "Usage: VIEWcheckpoint <filename> <checkpoint_tag>\n" λ filename tag. do
      send_checkpoint_request sock req_viewcheckpoint filename tag
      t ← recv_over req_viewcheckpoint sock
      checkpoint_shown sock filename tag t

reverted : CString → CString → MessageType → M (Unit {0})
reverted filename tag res_ok =
    say_both "File '" filename "' successfully reverted to checkpoint '" tag "'.\n"
reverted filename tag _ =
    say "Error: Failed to revert (checkpoint not found or permission denied).\n"

unfoldable pub handle_revert : ℕ → CString → M (Unit {0})
unfolding reverted
handle_revert sock args =
    with_words args "Usage: REVERT <filename> <checkpoint_tag>\n" λ filename tag. do
      send_checkpoint_request sock req_revert filename tag
      t ← recv_over req_revert sock
      reverted filename tag t

module _ (format_time : ℕ → CString) where
  checkpoint_items_shown : ℕ → List (CString × ℕ) → M (Unit {0})
  checkpoint_items_shown count [] = if count == 0 then pure tt else fault
  checkpoint_items_shown count ((tag, timestamp) ∷ items) =
      let rest = checkpoint_items_shown (count - 1) items in
      if count == 0
      then fault
      else (printf (
            codes "  - Tag: "
            ∷ tag
            ∷ codes "  (Created: "
            ∷ format_time timestamp
            ∷ codes ")\n"
            ∷ [])
          >> rest)

  checkpoints_listed : ℕ → CString → MessageType → M (Unit {0})
  unfolding checkpoint_items_shown
  checkpoints_listed sock filename res_checkpoint_list = do
    p ← recv_body sock
    elim p [
      | checkpoint_list count items ↦ do
        if count == 0
            then say_of "No checkpoints found for file '" filename "'.\n"
            else printf (
                codes "Checkpoints for '"
                ∷ filename
                ∷ codes "' ("
                ∷ print_int count
                ∷ codes " total):\n"
                ∷ [])
        checkpoint_items_shown count items
      | _ ↦ fault
    ]
  checkpoints_listed sock filename _ = say "Error: File not found or permission denied.\n"

  unfoldable pub handle_list_checkpoints : ℕ → CString → M (Unit {0})
  unfolding checkpoints_listed
  handle_list_checkpoints sock args =
      with_word args "Usage: LISTCHECKPOINTS <filename>\n" λ filename. do
        send sock req_listcheckpoints (listcheckpoints_request (strncpy max_filename filename))
        t ← recv_over req_listcheckpoints sock
        checkpoints_listed sock filename t

exec_failed : MessageType → M (Unit {0})
exec_failed res_exec_done = pure tt
exec_failed res_error_not_found = say "Error: File not found.\n"
exec_failed res_error_access_denied = say "Error: Access denied.\n"
exec_failed _ = say "Error: Execution failed.\n"

-- What the loop reads, from what comes in; `output` is whether a line of output comes next.
unfoldable pub exec_loop : ℕ → (output : Bool) → List Frame → M (Unit {0})
unfolding exec_failed
exec_loop sock false [] = do
  (λ w. returned tt (advance sock [] w))
  say "Error: Connection lost during exec.\n"
exec_loop sock false (body p ∷ rest) = fault
exec_loop sock false (heading t ∷ rest) = elim t [
  | res_exec_output ↦ exec_loop sock true rest
  | other ↦ do (λ w. returned tt (advance sock rest w)); exec_failed other
]
exec_loop sock true [] = fault
exec_loop sock true (heading t ∷ rest) = fault
exec_loop sock true (body p ∷ rest) = elim p [
  | exec_output line ↦ do printf (line ∷ []); exec_loop sock false rest
  | _ ↦ fault
]

unfoldable pub handle_exec : ℕ → CString → M (Unit {0})
handle_exec sock args = with_word args "Usage: EXEC <filename>\n" λ filename. do
  send_filename_request sock req_exec filename
  say_of "--- Executing '" filename "' ---\n"
  (λ w. exec_loop sock false (w.incoming sock) w)
  say "--- End of execution ---\n"
