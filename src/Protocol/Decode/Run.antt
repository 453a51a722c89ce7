-- ===== src/Protocol/Decode/Run.antt =====
-- A run of a decoder, from the runs of its parts.
use executor_hotpath_cpp.Base.{suc, true, [], ◌≡◌, Bytes, arith, length}
use executor_hotpath_cpp.Json.Reader
use executor_hotpath_cpp.Json.Reader.{Reader, start, begin_object, at_document_end, skip}
use executor_hotpath_cpp.Protocol.Answer.{P, answer, refused, members}
use executor_hotpath_cpp.Protocol.Decode.Fields.{State, none_seen}
use executor_hotpath_cpp.Protocol.Decode.{RequiredField, all_seen, finish, decode}
use executor_hotpath_cpp.Protocol.Frame.{value, failure}
use executor_hotpath_cpp.Wire.{DecodeError}
use mathlib.Core.List.{List}

finish_all :
    {A : Type 0} (required : List RequiredField) (s : State A)
    → all_seen s.seen required ≡ true
    → finish required s ≡ value s.message
unfolding finish
finish_all required s h = ground arith

pub decode_of :
    {A : Type 0} (field : Bytes → State A → P (State A)) (required : List RequiredField)
    (default : A) (body : Bytes) (r : Reader) {s : State A} {r' : Reader}
    → begin_object (start body) ≡ Reader.ok tt r
    → members (suc (length body)) field (record { message = default; seen = none_seen }) r
      ≡ answer s r'
    → r'.rest ≡ []
    → all_seen s.seen required ≡ true
    → decode field required default body ≡ value s.message
unfolding decode at_document_end skip
decode_of field required default body r {s} {r'} b m e h = ground (arith, finish_all required s h)

-- A decoder whose members are refused.
pub decode_refused :
    {A : Type 0} (field : Bytes → State A → P (State A)) (required : List RequiredField)
    (default : A) (body : Bytes) (r : Reader) {x : DecodeError}
    → begin_object (start body) ≡ Reader.ok tt r
    → members (suc (length body)) field (record { message = default; seen = none_seen }) r
      ≡ refused x
    → decode field required default body ≡ failure x
unfolding decode
decode_refused field required default body r b m = ground arith
