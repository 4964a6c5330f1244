-- ===== src/Examples/Streams.antt =====
-- The vsock connections and the IO proxies of internal/vm on concrete inputs.
use abschlussarbeit.Common.{
  true, false, Option, none, some, [], ◌∷◌, ◌≡◌, refl, subst, ap, length, Error, ok,
}
use abschlussarbeit.Common.Bytes.{Bytes, codes}
use abschlussarbeit.Common.FilePath.{has_prefix}
use abschlussarbeit.Vsock.{Net, Sockets, tick, vsock_dial, try_connect, written, vsock_connect_msg}
use abschlussarbeit.Common.Decimal.{itoa}
use abschlussarbeit.Vsock.Handshake.{Outcome, try_connect-Outcome}
use abschlussarbeit.Vsock.Dialing.{IsPolite, IsKept, vsock_dial-IsKept}
use abschlussarbeit.IoProxy.{reader_result, writer_result, proxy, while_copying}
use abschlussarbeit.IoProxy.Pairs.{closed_in, connected, reader_first, proxy_lem}

abbrev firecracker : Bytes → Net
firecracker answer = record {
  dial = λ calls path. ok 5;
  write = λ calls conn msg. (length msg, none);
  read_string = λ calls conn. (answer, none);
  listen = λ calls port. none;
  accept = λ calls port. some (ok 6);
  temporary = λ e. false;
}

abbrev no_sockets : Sockets
no_sockets = record { open_conns = []; calls = [] }

abbrev path : Bytes
path = codes "firecracker.vsock"

abbrev polite : Net
polite = firecracker (codes "OK 1073\n")

polite-IsPolite : IsPolite polite
unfolding has_prefix
polite-IsPolite calls conn line e =
    subst (λ l. has_prefix l (codes "OK ") ≡ true) (ap (λ (x : Bytes × Option Error). x.0) e) refl

try_connect-Outcome_example :
    Outcome polite path no_sockets
      (try_connect polite path 11000 no_sockets).0
      (try_connect polite path 11000 no_sockets).1.open_conns
try_connect-Outcome_example = try_connect-Outcome polite path 11000 no_sockets

-- An answer that is not "OK ..." leaves the connection open behind the error.
refused_leaks :
    (try_connect (firecracker (codes "NO\n")) path 11000 no_sockets).1.open_conns ≡ 5 ∷ []
unfolding try_connect written has_prefix vsock_connect_msg itoa
refused_leaks = refl

vsock_dial-IsKept_example :
    (let (o, t) = vsock_dial polite path 11000 (tick ∷ []) no_sockets in IsKept [] o t.open_conns)
vsock_dial-IsKept_example =
    vsock_dial-IsKept polite polite-IsPolite path 11000 (tick ∷ []) no_sockets

proxy_lem_example :
    closed_in
      (proxy
        (reader_result (record { stream = some 3; error = none })
          ∷ writer_result (record { stream = some 4; error = none })
          ∷ [])
        while_copying
        none).calls
    ≡ 3 ∷ 4 ∷ 3 ∷ 4 ∷ []
proxy_lem_example = (proxy_lem while_copying none (connected 3) (connected 4) reader_first).0
