-- ===== src/Dialogue/Tests.antt =====
-- A dialogue of the three programs on concrete states, and the theorems on it applied.
use distributed_document_sys.NameServer.State.{done}
use distributed_document_sys.Storage.Stdio.{print_int}
use distributed_document_sys.Dialogue.Viewing.{Views, handle_view-shown, flag_word}
use distributed_document_sys.NameServer.Views.{view_item, handle_req_view, in_view, send_items}
use distributed_document_sys.Client.Wire.{Wire}
use distributed_document_sys.Storage.Disk.{Disk}
use distributed_document_sys.Dialogue.{delivered, transfer_frames}
use distributed_document_sys.NameServer.Files.{handle_req_read_write_stream}
use distributed_document_sys.Storage.Statistics.{handle_send_file}
use distributed_document_sys.Protocol.{
  view_hdr, max_files_in_system, res_view_hdr, sent, Sent, res_read_location, read_response,
  req_read,
}
use distributed_document_sys.Dialogue.Reading.{Reads, handle_read-served}
use distributed_document_sys.Base.{
  strstr, count_from, true, ◌≡◌, false, List, arith, str_eq, codes, ◌∷◌, some, refl, [],
}
use distributed_document_sys.Client.Input.{strtok, span_token}
use distributed_document_sys.NameServer.Tests.{
  program, server_of, one_file, one_file-IsConsistent, notes,
}

abbrev disk : Disk
disk = record { files = λ p. some (codes "One. Two"); is_dir = λ p. str_eq p [] }

-- alice's client, to which the naming server answers with the address.
abbrev answer : List Sent
answer = sent 7 res_read_location (read_response (codes "10.0.0.5") 9001) ∷ []

abbrev waiting : Wire
waiting = record {
  printed = [];
  outgoing = [];
  incoming = λ _. delivered 7 answer;
  connections = (9, transfer_frames (handle_send_file notes disk)) ∷ [];
  dialled = [];
}

handle_read-served_example : Reads 7 9 notes one_file disk waiting (codes "notes.txt\n")
unfolding strtok span_token program
handle_read-served_example =
    handle_read-served 7 9 (codes "notes.txt\n") notes one_file
      (server_of (handle_req_read_write_stream 7 req_read notes one_file)) answer disk waiting []
      one_file-IsConsistent refl refl refl (omega arith) (omega arith) refl

-- alice asks for the long form of the list.
abbrev view_answer : List Sent
view_answer =
    sent 7 res_view_hdr (view_hdr (count_from (in_view 7 false one_file) max_files_in_system 0))
    ∷ send_items (in_view 7 false one_file) (λ i. view_item 7 true (one_file.file_catalog i))
        max_files_in_system 0

abbrev viewing : Wire
viewing = record {
  printed = [];
  outgoing = [];
  incoming = λ _. delivered 7 view_answer;
  connections = [];
  dialled = [];
}

long_form :
    handle_req_view 7
      (strstr (flag_word (codes "-l\n")) (codes "a"))
      (strstr (flag_word (codes "-l\n")) (codes "l"))
      one_file
    ≡ done one_file view_answer
unfolding strtok span_token strstr handle_req_view
long_form = refl

handle_view-shown_example : Views print_int 7 (codes "-l\n") one_file viewing
handle_view-shown_example =
    handle_view-shown print_int 7 (codes "-l\n") one_file one_file view_answer viewing long_form
      refl
