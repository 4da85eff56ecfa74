-- ===== src/Lab/Server/Cli/Exchange.antt =====
-- The command line and the daemon together, over the bytes of one connection.
use angellab.Prelude.{
  ℕ, ◌≤◌, ◌≡◌, refl, ap, ◌∙◌, true, false, Option, some, List, [], String, string_eq, ◌==◌,
}
use angellab.Ipc.{Msgpack, Conn, send, recv}
use angellab.Ipc.Frames.{IsEncodable, arrived, recv-send}
use angellab.Ipc.Client.{answered, request_frame, request}
use angellab.Ipc.Client.Exchange.{request-answered}
use angellab.Lab.Server.{Server, returned}
use angellab.Lab.Server.Cli.{CliRequest, Daemon, CliPayloads}
use angellab.Lab.Server.Cli.Commands.{cli_command}
use angellab.Lab.Server.Cli.Responses.{response, Streaming, handle_cli_conn}
use angellab.Lab.Server.Cli.Replies.{payload_of, request_answered}

-- A request of the command line that is not for the stream of events gets the reply of its command: when
-- its frame arrives at the daemon, the handler carries the command out, and when what the handler has
-- written arrives at the client, `Request` returns that reply. The frames are encodable and the payloads
-- are read back.
pub command_exchanged :
    {R : Type 0} (codec : Msgpack) (cp : CliPayloads) (decode : List ℕ → Option R) (d : Daemon)
    (on : Streaming) (s : Server) (req : CliRequest) (cid : String) (payload : List ℕ)
    (client daemon : Conn) (there back : ℕ) (r : R)
    → IsEncodable codec (request_frame cid payload)
    → IsEncodable codec (response cid (payload_of cp (cli_command d req s).2))
    → client.writable ≡ true
    → client.written ≡ []
    → daemon.writable ≡ true
    → daemon.written ≡ []
    → there ≤ daemon.now
    → back ≤ client.now
    → daemon.incoming ≡ arrived there (send codec (request_frame cid payload) client).0.written
    → cp.decode_request payload ≡ some req
    → (req.command == "event.subscribe") ≡ false
    → decode (payload_of cp (cli_command d req s).2) ≡ some r
    → (daemon' : Conn) × (handle_cli_conn codec cp d on s daemon
        ≡ (returned (cli_command d req s).0 daemon', (cli_command d req s).1))
      × ((request codec decode cid
            (some payload)
            (record client { incoming = arrived back daemon'.written })).1
          ≡ answered r)
command_exchanged codec cp decode d on s req cid payload client daemon there back r ask tell up
      start daemon_up daemon_start in_time back_time sent reads plain decodes =
    let body = payload_of cp (cli_command d req s).2 in
    let got =
      recv-send codec (request_frame cid payload) client daemon there ask up start in_time sent in
    let daemon' = (send codec (response cid body) (recv codec daemon).0).0 in
    let c : Conn = record client { incoming = arrived back daemon'.written } in
    (
      daemon',
      request_answered codec cp d on s daemon (request_frame cid payload) req (ap (λ x. x.1) got)
          refl reads plain,
      request-answered codec decode cid payload body c (recv codec daemon).0 back r ask tell up
          (ap (λ x. x.0.writable) got ∙ daemon_up) (ap (λ x. x.0.written) got ∙ daemon_start)
          back_time refl decodes,
    )
