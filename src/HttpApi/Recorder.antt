-- ===== src/HttpApi/Recorder.antt =====
-- The status recorder agrees with what went out, whatever a handler does with the writer.
use grounded_search.Prelude.{ℕ, ◌≡◌, refl, true, false, none, some, List, [], ◌∷◌, arith, ◌∙◌}
use grounded_search.Go.Str.{Str}
use grounded_search.Go.Http.{Header}
use grounded_search.HttpApi.State.{
  State, returned, panicked, recorded, set_header, write_header, write, send_status, record_status,
}

-- One call of a handler on its writer.
pub data WriterCall : Type 0 where
  set : Str → Str → WriterCall
  header : ℕ → WriterCall
  bytes : Str → WriterCall

unfoldable pub apply : WriterCall → State → State
apply (set name value) s = elim (set_header recorded name value s) [
  | returned _ t ↦ t
  | panicked _ t ↦ t
]
apply (header status) s = elim (write_header recorded status s) [
  | returned _ t ↦ t
  | panicked _ t ↦ t
]
apply (bytes text) s = elim (write recorded text s) [ returned _ t ↦ t | panicked _ t ↦ t ]

unfoldable pub apply_all : List WriterCall → State → State
unfolding apply
apply_all [] s = s
apply_all (c ∷ cs) s = apply_all cs (apply c s)

-- Before a status went out the recorder holds 200; afterwards it holds the status that went out.
pub data Agrees (s : State) : Type 0 where
  pending : s.recorder.wrote_header ≡ false → s.sent ≡ none → s.recorder.status ≡ 200 → Agrees s
  done :
      (h : Header)
      → s.recorder.wrote_header ≡ true
      → s.sent ≡ some (s.recorder.status, h)
      → Agrees s

apply_done :
    (c : WriterCall) (s : State)
    → s.recorder.wrote_header ≡ true
    → (h : Header) (k : ℕ) → s.sent ≡ some (k, h)
    → ((apply c s).sent ≡ s.sent) × ((apply c s).recorder ≡ s.recorder)
unfolding apply set_header write_header write send_status record_status
apply_done (set name value) s w h k e = (refl, refl)
apply_done (header status) s w h k e = ground arith
apply_done (bytes text) s w h k e = ground arith

-- Once a status went out, no call changes it or the headers that went out with it.
pub apply_all-sent :
    (cs : List WriterCall) (s : State) (k : ℕ) (h : Header)
    → s.recorder.wrote_header ≡ true
    → s.sent ≡ some (k, h)
    → (apply_all cs s).sent ≡ some (k, h)
unfolding apply_all
apply_all-sent [] s k h w e = e
apply_all-sent (c ∷ cs) s k h w e =
    let (sent, same) = apply_done c s w h k e in
    apply_all-sent cs (apply c s) k h (ground arith) (sent ∙ e)
