-- ===== src/Multiplex/Envelope.antt =====
-- wrap and unwrap are inverse to each other.
use low_latency_udp_fanout.Common.{
  ℕ, ◌^◌, ◌≤◌, ◌<◌, ◌≡◌, sym, ap, ◌∙◌, List, ◌++◌, none, some, length, length-append, drop,
  drop-append_length, arith, ap₂, Option-cases, inl, inr, ◌↔◌,
}
use low_latency_udp_fanout.Wire.Codec.Unsigned.{IsBytes}
use low_latency_udp_fanout.Wire.Codec.Laws.{IsLawful, unsigned-IsLawful, pair-IsLawful}
use low_latency_udp_fanout.Multiplex.{Key, stream_magic, prefix, wrap, unwrap}

-- A key of two uint64_t that are not zero.
abbrev pub IsKey : Key → Type 0
IsKey key = ((1 ≤ key.stream) × (key.stream < 256 ^ 8)) × ((1 ≤ key.epoch) × (key.epoch < 256 ^ 8))

prefix-IsLawful :
    IsLawful prefix (λ p. (p.0 < 256 ^ 4) × ((p.1.0 < 256 ^ 8) × (p.1.1 < 256 ^ 8))) 20
prefix-IsLawful =
    pair-IsLawful (unsigned-IsLawful 4) (pair-IsLawful (unsigned-IsLawful 8) (unsigned-IsLawful 8))

unwrap-wrap : (key : Key) (frame : List ℕ) → IsKey key → unwrap (wrap key frame) ≡ some (key, frame)
unfolding unwrap wrap
unwrap-wrap key frame h =
    let sent : ℕ × (ℕ × ℕ) = (stream_magic, (key.stream, key.epoch)) in
    let fits : (stream_magic < 256 ^ 4) × ((key.stream < 256 ^ 8) × (key.epoch < 256 ^ 8)) =
      (omega arith, (h.0.1, h.1.1)) in
    let long : length (prefix.put sent) ≡ 20 = prefix-IsLawful.size sent fits in
    let rest : drop 20 (prefix.put sent ++ frame) ≡ frame =
      ap (λ n. drop n (prefix.put sent ++ frame)) (sym long)
      ∙ drop-append_length (prefix.put sent) frame in
    rw (prefix-IsLawful.forth sent frame fits, rest)
      (ground (arith, long, length-append (prefix.put sent) frame))

-- What the checks of `unwrap` let through, once the prefix was read as `r`.
accepted :
    (bytes : List ℕ) (key : Key) (frame : List ℕ) (r : (ℕ × (ℕ × ℕ)) × List ℕ)
    → prefix.get bytes ≡ some r
    → unwrap bytes ≡ some (key, frame)
    → ((r.0 ≡ (stream_magic, (key.stream, key.epoch))) × (frame ≡ drop 20 bytes))
      × ((1 ≤ key.stream) × (1 ≤ key.epoch))
unfolding unwrap
accepted bytes key frame ((tag, (stream, epoch)), rest) got e =
    let tag_ok : tag ≡ stream_magic = ground (arith, e, got) in
    let stream_ok : (1 ≤ stream) × (key.stream ≡ stream) = ground (arith, e, got) in
    let epoch_ok : (1 ≤ epoch) × (key.epoch ≡ epoch) = ground (arith, e, got) in
    let frame_ok : frame ≡ drop 20 bytes = ground (arith, e, got) in
    ((cc, frame_ok), (omega (arith, stream_ok), omega (arith, epoch_ok)))

unread_none :
    (bytes : List ℕ) (key : Key) (frame : List ℕ)
    → prefix.get bytes ≡ none
    → unwrap bytes ≡ some (key, frame)
    → ⊥
unfolding unwrap
unread_none bytes key frame unread e = ground (arith, e, unread)

unwrap-inv :
    (bytes : List ℕ) (key : Key) (frame : List ℕ)
    → IsBytes bytes
    → unwrap bytes ≡ some (key, frame)
    → (bytes ≡ wrap key frame) × IsKey key
unfolding wrap
unwrap-inv bytes key frame ok e = elim (Option-cases (prefix.get bytes)) [
  | inl unread ↦ absurd (nothing unread)
  | inr (r, got) ↦
      let ((sent, cut), (stream_pos, epoch_pos)) = accepted bytes key frame r got e in
      let (parts, fits, _) = prefix-IsLawful.back bytes r.1 r.0 ok got in
      let long : length (prefix.put r.0) ≡ 20 = prefix-IsLawful.size r.0 fits in
      let rest : drop 20 (prefix.put r.0 ++ r.1) ≡ r.1 =
        ap (λ n. drop n (prefix.put r.0 ++ r.1)) (sym long)
        ∙ drop-append_length (prefix.put r.0) r.1 in
      let same : frame ≡ r.1 = cut ∙ ap (drop 20) parts ∙ rest in
      let stream_same : r.0.1.0 ≡ key.stream = ap (λ p. p.1.0) sent in
      let epoch_same : r.0.1.1 ≡ key.epoch = ap (λ p. p.1.1) sent in
      (
        parts ∙ ap₂ (λ p f. prefix.put p ++ f) sent (sym same),
        (
          (stream_pos, omega (arith, stream_same, fits)),
          (epoch_pos, omega (arith, epoch_same, fits)),
        ),
      )
]
  where
    nothing : prefix.get bytes ≡ none → ⊥
    nothing unread = unread_none bytes key frame unread e

-- Of lists of bytes, `unwrap` accepts exactly the ones that `wrap` makes, for keys of two nonzero numbers, and
-- gives back the key and the frame.
pub unwrap_iff_wrap :
    (bytes : List ℕ) (key : Key) (frame : List ℕ)
    → IsBytes bytes
    → (unwrap bytes ≡ some (key, frame)) ↔ ((bytes ≡ wrap key frame) × IsKey key)
unwrap_iff_wrap bytes key frame ok =
    (unwrap-inv bytes key frame ok, λ h. ap unwrap h.0 ∙ unwrap-wrap key frame h.1)
