-- ===== src/Client/Main.antt =====
-- The loop over the commands that are typed, `main` of client/client.c, with fuel for each byte.
use Prim.Native.String.{String}
use distributed_document_sys.Client.Writing.{handle_write}
use distributed_document_sys.Client.Access.{handle_add_access, handle_rem_access, handle_req_access}
use distributed_document_sys.Protocol.{PermissionLevel, max_username}
use distributed_document_sys.Base.{
  length, codes, str_eq, ℕ, Option, CString, none, some, zero, suc, if◌then◌else◌, [], ◌∷◌,
}
use distributed_document_sys.Client.Files.{
  handle_undo, handle_view, handle_list, handle_delete, handle_create, handle_stream, handle_info,
  handle_read,
}
use distributed_document_sys.Client.Review.{handle_check_requests}
use distributed_document_sys.Client.Folders.{
  handle_exec, handle_view_folder, handle_revert, handle_move, handle_list_checkpoints,
  handle_view_checkpoint, handle_checkpoint, handle_create_folder,
}
pub mod Ends
pub mod Reads
use distributed_document_sys.Client.Fueled.{T, out_of_fuel, lift, finish, ◌>>=◌, ◌>>◌}
use distributed_document_sys.Client.Wire.{M, fault, say, printf, close}
use distributed_document_sys.Client.Input.{read_line, cut_line, strtok, is_gap}
use distributed_document_sys.Client.Registration.{register_with_name_server}

-- `if (strcmp(command, name) == 0) run; else other`
unfoldable pub on : CString → String → T (Option CString) → T (Option CString) → T (Option CString)
on command name run other = if str_eq command (codes name) then run else other

-- A command that does not read standard input.
unfoldable pub stay : CString → M (Unit {0}) → T (Option CString)
stay typed run = lift run >> finish (some typed)

-- A command that does.
unfoldable pub reading : T CString → T (Option CString)
reading run = do rest ← run; finish (some rest)

module _ (format_time : ℕ → CString) (unwritten : PermissionLevel) (sock : ℕ)
    (username : CString) where
  -- What is left of standard input after the command; none to leave the loop.
  unfoldable pub run_command : CString → CString → CString → T (Option CString)
  run_command command args typed = on command "CREATE" (stay typed (handle_create sock args)) (
      on command "READ" (stay typed (handle_read sock args)) (
        on command "WRITE" (reading (handle_write sock args typed)) (
          on command "LIST" (stay typed (handle_list sock)) (
            on command "DELETE" (stay typed (handle_delete sock args)) (
              on command "UNDO" (stay typed (handle_undo sock args)) (
                on command "STREAM" (stay typed (handle_stream sock args)) (
                  on command "VIEW" (stay typed (handle_view format_time sock args)) (
                    on command "INFO" (stay typed (handle_info format_time sock args)) (
                      on command "ADDACCESS" (stay typed (handle_add_access sock args)) (
                        on command "REMACCESS" (stay typed (handle_rem_access unwritten sock args))
                          (on command "REQACCESS"
                            (stay typed (handle_req_access sock username args))
                            (on command "CHECKREQUESTS"
                              (reading (lift (handle_check_requests format_time sock typed)))
                              (on command "EXEC" (stay typed (handle_exec sock args)) (
                                on command "CREATEFOLDER"
                                  (stay typed (handle_create_folder sock args))
                                  (on command "MOVE" (stay typed (handle_move sock args)) (
                                    on command "VIEWFOLDER"
                                      (stay typed (handle_view_folder sock args))
                                      (on command "CHECKPOINT"
                                        (stay typed (handle_checkpoint sock args))
                                        (on command "VIEWCHECKPOINT"
                                          (stay typed (handle_view_checkpoint sock args))
                                          (on command "REVERT"
                                            (stay typed (handle_revert sock args))
                                            (on command "LISTCHECKPOINTS"
                                              (stay typed
                                                (handle_list_checkpoints format_time sock args))
                                              (on command "QUIT" (finish none) (
                                                on command "EXIT" (finish none) (
                                                  stay typed (
                                                    printf (
                                                      codes "Unknown command: "
                                                      ∷ command
                                                      ∷ codes "\n"
                                                      ∷ [])))))))))))))))))))))))))

  unfoldable pub command_loop : ℕ → CString → T (Unit {0})
  command_loop zero typed = out_of_fuel
  command_loop (suc fuel) typed = do
    lift (say "> ")
    elim (read_line 1024 typed) [
      | none ↦ finish tt
      | some (line, rest) ↦ elim (strtok is_gap line).0 [
        | none ↦ command_loop fuel rest
        | some command ↦ do
          left ← run_command command (strtok is_gap line).1 rest
          elim left [ none ↦ finish tt | some more ↦ command_loop fuel more ]
      ]
    ]

-- After the name is read.
unfoldable pub serve_user :
    (ℕ → CString) → PermissionLevel → CString → Option (CString × CString) → T (Unit {0})
serve_user format_time unwritten nm_ip none = lift fault
serve_user format_time unwritten nm_ip (some (line, typed)) = do
  sock ← lift (register_with_name_server nm_ip (cut_line line))
  lift (printf (codes "Registration successful! Welcome, " ∷ cut_line line ∷ codes ".\n" ∷ []))
  command_loop format_time unwritten sock (cut_line line) (suc (length typed)) typed
  lift (say "Disconnecting...\n")
  lift (close sock)

-- `main`, with the address of the naming server and all that standard input brings.
unfoldable pub main : (ℕ → CString) → PermissionLevel → CString → CString → T (Unit {0})
main format_time unwritten nm_ip typed = do
  lift (say "Enter your username: ")
  serve_user format_time unwritten nm_ip (read_line max_username typed)
