-- ===== src/Stream.antt =====
-- libfdata_stream, which src/ only calls: a data stream of segments that follow one another, as an
-- interface. The laws are what the library documents of the calls that libfsxfs makes; each can
-- fail, and then returns -1.
use mathlib.Core.Path.{subst}
use mathlib.Core.Option.{some-injective}
use libfsxfs.Prelude.{
  ℕ, ◌-◌, ◌≡◌, refl, List, [], ◌∷◌, ◌++◌, Option, none, some, ltb, if◌then◌else◌,
}

pub record Segment : Type 0 where
  pub offset : ℕ
  pub size : ℕ
  pub flags : ℕ

-- `Handle` is what the callbacks of a stream read from.
pub record FdataStream (Handle : Type 0) : Type 1 where
  pub Stream : Type 0
  pub handle : Stream → Handle
  -- The segments in order, and the size that the stream maps: what the laws speak of.
  pub segments : Stream → List Segment
  pub mapped_size : Stream → Option ℕ
  pub initialize : Handle → Option Stream
  pub append_segment : Stream → Segment → Option Stream
  pub set_mapped_size : Stream → ℕ → Option Stream
  pub initialize_law :
      (h : Handle) (s : Stream)
      → initialize h ≡ some s
      → (handle s ≡ h) × (segments s ≡ []) × (mapped_size s ≡ none)
  pub append_law :
      (s t : Stream) (x : Segment)
      → append_segment s x ≡ some t
      → (handle t ≡ handle s)
        × (segments t ≡ segments s ++ (x ∷ []))
        × (mapped_size t ≡ mapped_size s)
  pub set_mapped_law :
      (s t : Stream) (n : ℕ)
      → set_mapped_size s n ≡ some t
      → (handle t ≡ handle s) × (segments t ≡ segments s) × (mapped_size t ≡ some n)

-- The segment with the byte at an offset of the stream, and the offset in the segment.
abbrev pub locate : List Segment → ℕ → Option (Segment × ℕ)
locate [] offset = none
locate (s ∷ ss) offset = if ltb offset s.size then some (s, offset) else locate ss (offset - s.size)

-- The interface can be met.
pub record PlainStream (Handle : Type 0) : Type 0 where
  pub plain_handle : Handle
  pub plain_segments : List Segment
  pub plain_mapped_size : Option ℕ

module _ {Handle : Type 0} where
  abbrev pub plain_initialize : Handle → Option (PlainStream Handle)
  plain_initialize h =
      some (record { plain_handle = h; plain_segments = []; plain_mapped_size = none })

  abbrev pub plain_append : PlainStream Handle → Segment → Option (PlainStream Handle)
  plain_append s x = some (record s { plain_segments = s.plain_segments ++ (x ∷ []) })

  abbrev pub plain_set_mapped : PlainStream Handle → ℕ → Option (PlainStream Handle)
  plain_set_mapped s n = some (record s { plain_mapped_size = some n })

  pub plain_initialize_law :
      (h : Handle) (s : PlainStream Handle)
      → plain_initialize h ≡ some s
      → (s.plain_handle ≡ h) × (s.plain_segments ≡ []) × (s.plain_mapped_size ≡ none)
  plain_initialize_law h s e =
      subst
        (λ (t : PlainStream Handle).
          (t.plain_handle ≡ h) × (t.plain_segments ≡ []) × (t.plain_mapped_size ≡ none))
        (some-injective _ _ e) (refl, refl, refl)

  pub plain_append_law :
      (s t : PlainStream Handle) (x : Segment)
      → plain_append s x ≡ some t
      → (t.plain_handle ≡ s.plain_handle)
        × (t.plain_segments ≡ s.plain_segments ++ (x ∷ []))
        × (t.plain_mapped_size ≡ s.plain_mapped_size)
  plain_append_law s t x e =
      subst
        (λ (t : PlainStream Handle).
          (t.plain_handle ≡ s.plain_handle)
          × (t.plain_segments ≡ s.plain_segments ++ (x ∷ []))
          × (t.plain_mapped_size ≡ s.plain_mapped_size))
        (some-injective _ _ e) (refl, refl, refl)

  pub plain_set_mapped_law :
      (s t : PlainStream Handle) (n : ℕ)
      → plain_set_mapped s n ≡ some t
      → (t.plain_handle ≡ s.plain_handle)
        × (t.plain_segments ≡ s.plain_segments)
        × (t.plain_mapped_size ≡ some n)
  plain_set_mapped_law s t n e =
      subst
        (λ (t : PlainStream Handle).
          (t.plain_handle ≡ s.plain_handle)
          × (t.plain_segments ≡ s.plain_segments)
          × (t.plain_mapped_size ≡ some n))
        (some-injective _ _ e) (refl, refl, refl)

abbrev pub plain_stream : (Handle : Type 0) → FdataStream Handle
plain_stream Handle = record {
  Stream = PlainStream Handle;
  handle = λ s. s.plain_handle;
  segments = λ s. s.plain_segments;
  mapped_size = λ s. s.plain_mapped_size;
  initialize = plain_initialize;
  append_segment = plain_append;
  set_mapped_size = plain_set_mapped;
  initialize_law = plain_initialize_law;
  append_law = plain_append_law;
  set_mapped_law = plain_set_mapped_law;
}
