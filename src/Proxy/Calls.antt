-- ===== src/Proxy/Calls.antt =====
-- pkg/proxy: how an operation ends with what a client reports.
use longhorn_instance_manage.Base.{
  Text, Option, none, some, Error, status, internal, unimplemented, Result, ok, err,
}

-- An error that is reported as Internal.
unfoldable pub internal_of : {A : Type 0} → Result A → Result A
internal_of (err e) = err (status internal)
internal_of (ok a) = ok a

module _ {S : Type 0} where
  unfoldable pub asked : {A : Type 0} → S → Result A → S × Result A
  asked s answer = (s, answer)

  unfoldable pub acted : S × Option Error → S × Result (Unit {0})
  acted (s, some e) = (s, err e)
  acted (s, none) = (s, ok tt)

  unfoldable pub acted_internal : S × Option Error → S × Result (Unit {0})
  acted_internal (s, some e) = (s, err (status internal))
  acted_internal (s, none) = (s, ok tt)

  -- A client that cannot be made ends the operation with its error.
  unfoldable pub connected : {A : Type 0} → Option Error → (S → S × Result A) → S → S × Result A
  connected (some e) next s = (s, err e)
  connected none next s = next s

  -- What is done with the address of an SPDK client, if there is one.
  unfoldable pub reached : {A : Type 0} → Result Text → (Text → S → S × Result A) → S → S × Result A
  reached (err e) next s = (s, err (status internal))
  reached (ok service) next s = next service s

  -- What the first data engine, or the second, does not have.
  unfoldable pub unimplemented_op : {A : Type 0} → S → S × Result A
  unimplemented_op s = (s, err (status unimplemented))
