-- ===== src/Proxy/Buffer.antt =====
-- crates/budu-proxy/src/lib.rs: the buffering of a response body.
use mathlib.Core.Path.{subst}
use mathlib.Core.List.{append-nil, append_assoc}
use budu_waf.Prelude.{
  ℕ, ◌+◌, ◌≤◌, ◌≡◌, sym, ap, ◌∙◌, ◌↔◌, List, [], ◌∷◌, ◌++◌, Bytes, arith, length, length-append,
}
use budu_waf.Proxy.Model.{Frame, chunk, trailers, broken}
use budu_waf.Proxy.Handle.{fits, collect_frames}

-- All the data of a stream.
pub payload : List Frame → Bytes
payload [] = []
payload (chunk bytes ∷ frames) = bytes ++ payload frames
payload (trailers ∷ frames) = payload frames
payload (broken ∷ frames) = payload frames

-- A stream that ends without an error.
pub data Intact : List Frame → Type 0 where
  end : Intact []
  data_frame : {bytes : Bytes} {frames : List Frame} → Intact frames → Intact (chunk bytes ∷ frames)
  trailers_frame : {frames : List Frame} → Intact frames → Intact (trailers ∷ frames)

-- a list is no longer than itself with more behind it
length_le : (a b c : Bytes) (max : ℕ) → length (a ++ (b ++ c)) ≤ max → length a + length b ≤ max
length_le a b c max h = omega (arith, length-append a (b ++ c), length-append b c, h)

collects :
    (max : ℕ) (buf : Bytes) (frames : List Frame)
    → Intact frames
    → length (buf ++ payload frames) ≤ max
    → collect_frames max buf frames ≡ fits (buf ++ payload frames)
unfolding collect_frames payload
collects max buf [] end h = ap fits (sym (append-nil buf))
collects max buf (chunk bytes ∷ frames) (data_frame i) h =
    let rest =
      collects max (buf ++ bytes) frames i (rw (append_assoc buf bytes (payload frames)) h) in
    let small = length_le buf bytes (payload frames) max h in
    ground (arith) ∙ rest ∙ ap fits (append_assoc buf bytes (payload frames))
collects max buf (trailers ∷ frames) (trailers_frame i) h = collects max buf frames i h
collects max buf (broken ∷ frames) i h = elim i [ ]

collected :
    (max : ℕ) (buf : Bytes) (frames : List Frame) (b : Bytes)
    → length buf ≤ max
    → collect_frames max buf frames ≡ fits b
    → Intact frames × (b ≡ buf ++ payload frames) × (length b ≤ max)
unfolding collect_frames payload
collected max buf [] b l h =
    let e : buf ≡ b = ground arith in
    (end, sym e ∙ sym (append-nil buf), subst (λ t. length t ≤ max) e l)
collected max buf (chunk bytes ∷ frames) b l h =
    let small : length buf + length bytes ≤ max = ground arith in
    let rest : collect_frames max (buf ++ bytes) frames ≡ fits b = ground arith in
    let (i, e, k) =
      collected max (buf ++ bytes) frames b (rw (length-append buf bytes) small) rest in
    (data_frame i, e ∙ append_assoc buf bytes (payload frames), k)
collected max buf (trailers ∷ frames) b l h =
    let (i, e, k) = collected max buf frames b l h in (trailers_frame i, e, k)
collected max buf (broken ∷ frames) b l h = absurd cc

-- The loop that buffers a reply succeeds exactly on a stream that ends without an error and has at most
-- `max` bytes of data, and what it gives is then all the data of the stream in its order.
pub collect_frames-Intact :
    (max : ℕ) (frames : List Frame) (b : Bytes)
    → (collect_frames max [] frames ≡ fits b)
      ↔ (Intact frames × (b ≡ payload frames) × (length b ≤ max))
collect_frames-Intact max frames b = (
  collected max [] frames b (omega arith),
  λ (i, e, k). collects max [] frames i (subst (λ t. length t ≤ max) e k) ∙ ap fits (sym e),
)
