-- ===== src/ShmRing/Lossless.antt =====
-- A reader that joined in time and reads in order gets every frame, in order.
use low_latency_udp_fanout.Common.{
  ℕ, suc, ◌-◌, ◌^◌, ◌≤◌, ◌<◌, ◌≡◌, ◌≢◌, refl, sym, ap, ◌∙◌, Bool, true, false, List, ◌∷◌, ◌++◌,
  some, ◌==◌, if◌then◌else◌, length, arith, length-append,
}
use mathlib.Core.List.{append-nil}
use low_latency_udp_fanout.ShmRing.{Ring, frame_cap, ok, empty, write, invalidate, fill, read}
use low_latency_udp_fanout.ShmRing.Registry.{
  reader_of, has_room-room, attach-other, register-SameReader, detach-SameReader, read-SameReader,
}
use low_latency_udp_fanout.ShmRing.Recall.{recall}
use low_latency_udp_fanout.ShmRing.Frames.{
  register-SameFrames, detach-SameFrames, read-SameFrames, attach-inv,
}
use low_latency_udp_fanout.ShmRing.History.{frame_number, History-Held, write-Held}
use low_latency_udp_fanout.ShmRing.System.{
  Run, joined, looked, wrote, read_next, other_read, other_attached, other_detached,
}
use low_latency_udp_fanout.ShmRing.Safe.{Safe, Safe-SameReader, recalled, read_next-Safe}

wrote-Safe :
    {count r : ℕ} {frames got : List (List ℕ)} {ring : Ring} (bytes : List ℕ)
    → Safe count r frames got ring true
    → suc (length frames) < 2 ^ 64 - 1
    → 1 ≤ length bytes
    → length bytes ≤ frame_cap
    → Safe count r (bytes ∷ frames) got (write ring bytes) false
unfolding write invalidate fill
wrote-Safe bytes v bound nonempty fits = record {
  held = write-Held bytes (omega (arith, bound)) nonempty fits v.held;
  policy = v.policy;
  inside = v.inside;
  registered = v.registered;
  pending = bytes ∷ v.pending;
  in_order = ap (λ fs. bytes ∷ fs) v.in_order;
  position = v.position;
  near = omega (arith, v.room refl);
  room = λ e. absurd (ground arith);
}

Run-Safe :
    {count r : ℕ} {frames got : List (List ℕ)} {ring : Ring} {c : Bool}
    → Run count r frames got ring c
    → length frames < 2 ^ 64 - 1
    → Safe count r frames got ring c
Run-Safe {count} {r} (joined past policy inside live at_start near) bound = record {
  held = History-Held past (omega (arith, bound));
  policy = policy;
  inside = inside;
  registered = live;
  pending = _;
  in_order = sym (append-nil _);
  position = at_start;
  near = omega (arith, near);
  room = λ e. absurd (ground arith);
}
Run-Safe {count} {r} (looked before e) bound =
    let v = Run-Safe before bound in
    record {
      held = v.held;
      policy = v.policy;
      inside = v.inside;
      registered = v.registered;
      pending = v.pending;
      in_order = v.in_order;
      position = v.position;
      near = v.near;
      room = λ _. omega (
        arith,
        has_room-room _ r v.policy v.inside v.registered e,
        v.held.index,
        v.held.same_count,
        v.position,
      );
    }
Run-Safe (wrote bytes before nonempty fits) bound =
    wrote-Safe bytes (Run-Safe before (omega arith)) bound nonempty fits
Run-Safe (read_next locked before) bound = read_next-Safe (Run-Safe before bound) locked bound
Run-Safe (other_read locked s index before other) bound =
    Safe-SameReader (read-SameReader locked s index other _)
      (read-SameFrames (some s) locked index _) (Run-Safe before bound)
Run-Safe {r = r} (other_attached aligned sizeof_slot pid s before e) bound =
    let v = Run-Safe before bound in
    let other : s ≢ r = attach-other aligned _ sizeof_slot pid s r _ e v.registered in
    rw (attach-inv aligned _ sizeof_slot pid s _ e)
      (Safe-SameReader (register-SameReader s pid other _) (register-SameFrames s pid _) v)
Run-Safe (other_detached s before other) bound =
    Safe-SameReader (detach-SameReader s other _) (detach-SameFrames (some s) _)
      (Run-Safe before bound)

-- With back-pressure on, a reader that joined before the ring was full and always reads at its own
-- cursor has got all frames in the order of their publication, but for at most `count` that are
-- still to be read; and its next read gives the oldest of these, or is empty if there is none.
-- Fewer than 2 ^ 64 - 1 frames were published.
pub lossless :
    {count r : ℕ} {frames got : List (List ℕ)} {ring : Ring} {c : Bool}
    → Run count r frames got ring c
    → length frames < 2 ^ 64 - 1
    → (pending : List (List ℕ)) × ((frames ≡ pending ++ got)
        × ((length pending ≤ count)
            × ((read (some r) true (reader_of ring r).cursor ring).0
                ≡ (if length pending == 0 then empty else ok (frame_number frames (length got))))))
unfolding read recall
lossless run bound =
    let v = Run-Safe run bound in
    let sum = ap length v.in_order ∙ length-append v.pending _ in
    (
      v.pending,
      (
        v.in_order,
        (
          omega (arith, sum, v.near),
          recalled v bound
              ∙ ground (arith, sum, v.position, v.near, ap (frame_number _) v.position),
        ),
      ),
    )
