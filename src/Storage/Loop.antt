-- ===== src/Storage/Loop.antt =====
-- The loop of `main` in storage/storage_server.c, over what `select`, `accept` and `recv` give. The
-- set of sockets that are watched, its highest member, and the sockets that are open, go from round to
-- round: the handlers of clients `close` the socket and clear it with `FD_CLR`.
pub mod Looping
use distributed_document_sys.Storage.Metadata.{MetadataFile}
use distributed_document_sys.Storage.Start.{initialise}
use distributed_document_sys.Storage.Statistics.{Output}
use distributed_document_sys.Storage.Clients.{handle_client_message_ss, ClientRequest, Answer}
use distributed_document_sys.Storage.Files.{SsRequest, Store, handle_nm_message_ss}
use distributed_document_sys.Storage.Sessions.{Storage, handle_client_disconnect}
use distributed_document_sys.Base.{
  ltb, leb, update, Bool, Option, List, ℕ, zero, suc, none, ◌==◌, true, [], false, ◌++◌, CString,
  ◌&&◌, if◌then◌else◌, some, ◌∷◌,
}

-- What comes in a round: the sockets that `select` has left in `read_set`, the socket of `accept`
-- if it succeeds, the naming server's request, and the request on each client's socket; none where
-- `recv` gives no header.
pub record Round : Type 0 where
  pub readable : ℕ → Bool
  pub accepted : Option ℕ
  pub asked : Option SsRequest
  pub received : ℕ → Option ClientRequest

pub record Loop : Type 0 where
  pub storage : Storage
  pub metadata : MetadataFile
  pub master_set : ℕ → Bool
  pub fdmax : ℕ
  pub open_sockets : ℕ → Bool

-- After some sockets: the loop and what has been sent on which socket; the end of the program, as
-- the naming server has gone; or undefined behaviour.
pub data Served : Type 0 where
  served : Loop → List (ℕ × List Output) → Served
  stopped broken : Served

abbrev pub after : List (ℕ × List Output) → Served → Served
after out (served l more) = served l (out ++ more)
after out stopped = stopped
after out broken = broken

abbrev pub and_then : Served → (Loop → Served) → Served
and_then (served l out) go_on = after out (go_on l)
and_then stopped go_on = stopped
and_then broken go_on = broken

-- `accept`, `FD_SET` and the update of `fdmax`.
unfoldable pub watch : Option ℕ → Loop → Loop
watch none l = l
watch (some new_sock) l = record l {
  master_set = update l.master_set new_sock true;
  fdmax = if ltb l.fdmax new_sock then new_sock else l.fdmax;
  open_sockets = update l.open_sockets new_sock true;
}

-- `close(sock_fd); FD_CLR(sock_fd, master_set);`
unfoldable pub close_socket : ℕ → Loop → Loop
close_socket sock l = record l {
  master_set = update l.master_set sock false;
  open_sockets = update l.open_sockets sock false;
}

-- `handle_client_disconnect`
unfoldable pub unwatch : ℕ → Loop → Loop
unwatch sock l = close_socket sock (record l { storage = handle_client_disconnect sock l.storage })

-- `fresh` gives the addresses of `malloc`, `stamp` and `listing` what the file system knows.
module _ (fresh : ℕ → ℕ) (stamp : CString → ℕ × ℕ) (listing : CString → List CString)
    (nm_sock listener : ℕ) where
  from_client : ℕ → Loop → Option Answer → Served
  from_client sock l none = broken
  from_client sock l (some a) =
      let l' = record l { storage = a.after } in
      served (if a.closes then close_socket sock l' else l') ((sock, a.sent) ∷ [])

  from_server : Loop → Option (List Output × Store) → Served
  from_server l none = broken
  from_server l (some (out, s)) =
      served (record l { storage = record l.storage { disk = s.disk }; metadata = s.metadata })
        ((nm_sock, out) ∷ [])

  unfoldable pub receive : ℕ → Option ClientRequest → Loop → Served
  unfolding from_client
  receive sock none l = served (unwatch sock l) []
  receive sock (some q) l = from_client sock l (handle_client_message_ss fresh sock q l.storage)

  unfoldable pub receive_nm : Option SsRequest → Loop → Served
  unfolding from_server
  receive_nm none l = stopped
  receive_nm (some q) l = from_server l (
      handle_nm_message_ss stamp listing q
        (record { disk = l.storage.disk; metadata = l.metadata }))

  unfoldable pub visit : Round → ℕ → Loop → Served
  visit r sock l =
      if leb sock l.fdmax && r.readable sock
      then if sock == nm_sock
        then receive_nm r.asked l
        else if sock == listener
        then served (watch r.accepted l) []
        else receive sock (r.received sock) l
      else served l []

  -- The loop over the sockets from `sock` on, of which there are `n`; those above `fdmax` are
  -- passed over.
  unfoldable pub visit_from : Round → ℕ → ℕ → Loop → Served
  visit_from r zero sock l = served l []
  visit_from r (suc n) sock l = and_then (visit r sock l) (λ l'. visit_from r n (suc sock) l')

-- Before the first round, after the registration.
unfoldable pub main_start : (nm_sock listener : ℕ) → Storage → MetadataFile → Loop
main_start nm_sock listener s table = record {
  storage = initialise s;
  metadata = table;
  master_set = update (λ i. i == nm_sock) listener true;
  fdmax = if ltb listener nm_sock then nm_sock else listener;
  open_sockets = update (λ i. i == nm_sock) listener true;
}
