-- ===== src/Manager/Logs.antt =====
-- The stream of a process's log: `ProcessLog` of pkg/process/process_manager.go. What the logger streams,
-- up to the close of its channel, and what a send to the caller returns are arguments.
use longhorn_instance_manage.Base.{
  ℕ, Text, ◌≡◌, ◌∙◌, ap, refl, Option, none, some, List, [], ◌∷◌, ◌++◌, lookup, Error, status,
  not_found, Result, ok, err, Option-cases, inl, inr,
}
use longhorn_instance_manage.Manager.{Manager}

-- A send: after the lines that are sent, the error of the next one.
abbrev pub Send : Type 0
Send = List Text → Text → Option Error

-- The lines are sent in turn; the first error ends the stream.
unfoldable pub send_lines : Send → List Text → Option Error → List Text → List Text × Option Error
send_lines send [] ending done = (done, ending)
send_lines send (line ∷ lines) ending done = elim (send done line) [
  | some e ↦ (done, some e)
  | none ↦ send_lines send lines ending (done ++ line ∷ [])
]

unfoldable pub process_log :
    {B : Type 0} → (ℕ → Result (List Text)) → Send → Text → Manager B → List Text × Option Error
unfolding send_lines
process_log stream_log send name m = elim (lookup name m.processes) [
  | none ↦ ([], some (status not_found))
  | some r ↦ elim (stream_log r) [ err e ↦ ([], some e) | ok lines ↦ send_lines send lines none [] ]
]

-- What is sent is a first part of the lines, and all of them where there is no error.
abbrev pub IsPart : List Text × Option Error → List Text → Type 0
IsPart (sent, e) lines = (rest : List Text) × (sent ++ rest ≡ lines) × (e ≡ none → rest ≡ [])

pub append_assoc : (xs ys zs : List Text) → (xs ++ ys) ++ zs ≡ xs ++ (ys ++ zs)
append_assoc [] ys zs = refl
append_assoc (x ∷ xs) ys zs = ap (λ l. x ∷ l) (append_assoc xs ys zs)

pub send_lines-IsPart :
    (send : Send) (lines : List Text) (ending : Option Error) (done : List Text)
    → IsPart (send_lines send lines ending done) (done ++ lines)
unfolding send_lines
send_lines-IsPart send [] ending done = ([], refl, λ h. refl)
send_lines-IsPart send (line ∷ lines) ending done = elim (Option-cases (send done line)) [
  | inl fine ↦
      let (rest, joined, whole) = send_lines-IsPart send lines ending (done ++ line ∷ []) in
      rw (fine, send_lines) (rest, joined ∙ append_assoc done (line ∷ []) lines, whole)
  | inr (e, failure) ↦ rw (failure, send_lines) (line ∷ lines, refl, λ h. cc)
]
