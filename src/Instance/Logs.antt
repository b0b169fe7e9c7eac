-- ===== src/Instance/Logs.antt =====
-- `InstanceLog` of pkg/instance/instance.go and `ProcessLog` of pkg/client/process_manager.go: the stream
-- of an instance's log, from the logger of its process to the caller. What each send returns is an
-- argument.
use longhorn_instance_manage.Base.{
  ℕ, ℤ, Text, ◌≡◌, ◌∙◌, ap, sym, refl, Option, none, some, List, [], ◌∷◌, ◌++◌, lookup, Error,
  status, failed, codes, internal, unimplemented, is_empty, if◌then◌else◌, Result, ok, err,
  Option-cases, Bool-cases, inl, inr, arith,
}
use longhorn_instance_manage.Manager.{Manager}
use longhorn_instance_manage.Manager.Logs.{
  Send, send_lines, process_log, IsPart, send_lines-IsPart, append_assoc,
}
use longhorn_instance_manage.Instance.{DataEngine, v1, v2, ops_of}

-- The lines of a stream, and the error that ends it; without one it ends with `io.EOF`.
abbrev pub Stream : Type 0
Stream = List Text × Option Error

-- What the connection to the process manager does: it may not be made, the call may not open a stream,
-- and it carries what the handler sends.
pub record LogConnection : Type 0 where
  pub connect_error : Option Error
  pub open_error : Option Error
  pub carry : Stream → Stream

-- A stream over gRPC gives the receiver the lines that are sent, in their order, up to some point, and
-- ends without an error only after all of them, if the handler has returned without one.
abbrev pub IsReliable : LogConnection → Type 0
IsReliable c = (s : Stream) → IsPart (c.carry s) s.0 × ((c.carry s).1 ≡ none → s.1 ≡ none)

-- The loop that receives a line and sends it on.
unfoldable pub relayed : Send → Result Stream → Stream
unfolding send_lines
relayed send (err e) = ([], some e)
relayed send (ok (lines, ending)) = send_lines send lines ending []

module _ {B : Type 0} (c : LogConnection) (stream_log : ℕ → Result (List Text))
    (handler_send send : Send) where
  -- `ProcessLog` of the client.
  unfoldable pub client_process_log : Text → Manager B → Result Stream
  unfolding process_log
  client_process_log name m =
      if is_empty name
      then err (failed (codes "failed to get process: missing required parameter name"))
      else elim c.open_error [
        | some e ↦ err e
        | none ↦ ok (c.carry (process_log stream_log handler_send name m))
      ]

  unfoldable pub v1_instance_log : Text → Manager B → Stream
  unfolding client_process_log relayed
  v1_instance_log name m = elim c.connect_error [
    | some e ↦ ([], some (status internal))
    | none ↦ relayed send (client_process_log name m)
  ]

  unfoldable pub log_of : Option DataEngine → Text → Manager B → Stream
  unfolding v1_instance_log
  log_of none name m = ([], some (status unimplemented))
  log_of (some v1) name m = v1_instance_log name m
  log_of (some v2) name m = ([], some (status unimplemented))

  unfoldable pub instance_log : ℤ → Text → Manager B → Stream
  unfolding log_of ops_of
  instance_log engine name m = log_of (ops_of engine) name m

IsPart-nothing : (e : Error) (lines : List Text) → IsPart ([], some e) lines
IsPart-nothing e lines = (lines, refl, λ h. cc)

IsPart-trans :
    (s t : Stream) (lines : List Text)
    → IsPart s t.0
    → (s.1 ≡ none → t.1 ≡ none)
    → IsPart t lines
    → IsPart s lines
IsPart-trans (xs, e) (ys, f) lines (rest, joined, whole) ends (more, others, all) = (
  rest ++ more,
  sym (append_assoc xs rest more) ∙ ap (λ l. l ++ more) joined ∙ others,
  λ h. rw (whole h, all (ends h)) refl,
)

send_lines-ends :
    (send : Send) (lines : List Text) (ending : Option Error) (done : List Text)
    → (send_lines send lines ending done).1 ≡ none
    → ending ≡ none
unfolding send_lines
send_lines-ends send [] ending done h = h
send_lines-ends send (line ∷ lines) ending done h = elim (Option-cases (send done line)) [
  | inl fine ↦ send_lines-ends send lines ending (done ++ line ∷ []) (ground arith)
  | inr (e, failure) ↦ ground arith
]

relayed-IsPart :
    (send : Send) (s : Stream) (lines : List Text)
    → IsPart s lines
    → IsPart (relayed send (ok s)) lines
unfolding relayed
relayed-IsPart send (xs, ending) lines part =
    IsPart-trans (send_lines send xs ending []) (xs, ending) lines
      (send_lines-IsPart send xs ending []) (send_lines-ends send xs ending []) part

module _ {B : Type 0} (c : LogConnection) (stream_log : ℕ → Result (List Text))
    (handler_send send : Send) (name : Text) (m : Manager B) (r : ℕ) (lines : List Text)
    (reliable : IsReliable c) (named : lookup name m.processes ≡ some r)
    (logged : stream_log r ≡ ok lines) where
  process_log-IsPart : IsPart (process_log stream_log handler_send name m) lines
  unfolding process_log
  process_log-IsPart =
      rw (named, logged, process_log) (send_lines-IsPart handler_send lines none [])

  carried-IsPart : IsPart (c.carry (process_log stream_log handler_send name m)) lines
  carried-IsPart =
      let s = process_log stream_log handler_send name m in
      IsPart-trans (c.carry s) s lines (reliable s).0 (reliable s).1 process_log-IsPart

  client_log-IsPart :
      IsPart (relayed send (client_process_log c stream_log handler_send send name m)) lines
  unfolding client_process_log relayed
  client_log-IsPart = elim (Bool-cases (is_empty name)) [
    | inl b ↦ rw (b, client_process_log, relayed) (IsPart-nothing _ lines)
    | inr b ↦ elim (Option-cases c.open_error) [
      | inr (e, failure) ↦ rw (b, failure, client_process_log, relayed) (IsPart-nothing e lines)
      | inl opened ↦
          rw (b, opened, client_process_log)
            (relayed-IsPart send (c.carry (process_log stream_log handler_send name m)) lines
              carried-IsPart)
    ]
  ]

  log_of-IsPart :
      (o : Option DataEngine) → IsPart (log_of c stream_log handler_send send o name m) lines
  unfolding log_of v1_instance_log
  log_of-IsPart none = IsPart-nothing (status unimplemented) lines
  log_of-IsPart (some v2) = IsPart-nothing (status unimplemented) lines
  log_of-IsPart (some v1) = elim (Option-cases c.connect_error) [
    | inr (e, failure) ↦ rw (failure, v1_instance_log) (IsPart-nothing (status internal) lines)
    | inl made ↦ rw (made, v1_instance_log) client_log-IsPart
  ]

  -- Over a connection that is reliable, the lines that a caller of `InstanceLog` gets for a process of the table are a first part of those that its logger streams, and all of them where the call ends without an error, whatever fails on the way.
  pub instance_log-IsPart :
      (engine : ℤ) → IsPart (instance_log c stream_log handler_send send engine name m) lines
  unfolding instance_log
  instance_log-IsPart engine = log_of-IsPart (ops_of engine)
