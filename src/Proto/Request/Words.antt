-- ===== src/Proto/Request/Words.antt =====
-- The stored words of the enumerations of nod-proto/src/request.rs.
use nod.Base.{◌≡◌, refl}
use nod.Proto.Request.{
  OptionKind, approve, RequestStatus, pending, DecisionResolution, shared, per_user, kind_str,
  kind_of_str, status_str, status_of_str, resolution_str, resolution_of_str,
}

pub kind_of_str-kind_str : (k : OptionKind) → kind_of_str (kind_str k) ≡ k
unfolding kind_of_str kind_str
kind_of_str-kind_str approve = refl
kind_of_str-kind_str _ = refl

status_of_str-status_str : (s : RequestStatus) → status_of_str (status_str s) ≡ s
unfolding status_of_str status_str
status_of_str-status_str pending = refl
status_of_str-status_str _ = refl

-- The words stored for an option's kind, a request's status and its way of resolution read back as
-- the values that they were written for: no two values of one enumeration share a word.
pub stored_words_read_back :
    (k : OptionKind) (s : RequestStatus) (r : DecisionResolution)
    → (kind_of_str (kind_str k) ≡ k)
      × (status_of_str (status_str s) ≡ s)
      × (resolution_of_str (resolution_str r) ≡ r)
unfolding resolution_of_str resolution_str
stored_words_read_back k s shared = (kind_of_str-kind_str k, status_of_str-status_str s, refl)
stored_words_read_back k s per_user = (kind_of_str-kind_str k, status_of_str-status_str s, refl)
