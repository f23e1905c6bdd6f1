-- ===== src/Network/Prefixed.antt =====
-- src/network/prefixed_stream.rs: the reader that gives back bytes before it goes on with a stream.
pub mod Order
use mathlib.Core.Option
use vine.Base.{
  ℕ, zero, suc, ◌+◌, ◌≤◌, ◌<◌, Bool, true, false, leb, if◌then◌else◌, List, [], ◌∷◌, ◌++◌, Option,
  none, some, Text, length, take, drop, length-append, length-take, take-append-drop, drop-append,
  append_assoc, ◌≡◌, refl, sym, ◌∙◌, ap, arith, Bool-cases, inl, inr,
}
use vine.Network.Stream.{
  Stream, Read, got, failed, read, pending, IsWhole, Reads, at_end, some_bytes, read-Reads,
}

-- `std::io::Cursor`
pub record Cursor : Type 0 where
  pub bytes : Text
  pub position : ℕ

pub record PrefixedRead : Type 0 where
  pub prefix : Option Cursor
  pub inner : Stream

pub new : Stream → Text → PrefixedRead
new inner [] = record { prefix = none; inner = inner }
new inner (b ∷ bs) = record {
  prefix = some (record { bytes = b ∷ bs; position = 0 });
  inner = inner;
}

pub without_prefix : Stream → PrefixedRead
without_prefix inner = record { prefix = none; inner = inner }

-- What a call of `poll_read` that is ready puts behind the filled part of the buffer.
pub data Polled : Type 0 where
  ready : Text → PrefixedRead → Polled
  poll_failed : Polled

-- `Pin::new(&mut self.inner).poll_read(cx, buf)`
poll_inner : Option Cursor → Read → Polled
poll_inner prefix (got bs rest) = ready bs (record { prefix = prefix; inner = rest })
poll_inner prefix failed = poll_failed

-- The bytes that the cursor gives, and what is left of the prefix.
taken : ℕ → Cursor → Text
taken size c = take size (drop c.position c.bytes)

left : ℕ → Cursor → Option Cursor
left size c =
    let position = c.position + length (taken size c) in
    if leb (length c.bytes) position then none else some (record c { position = position })

-- A call that fills its buffer from the prefix leaves the inner stream alone.
behind_prefix : ℕ → Option Cursor → Stream → Text → Polled
unfolding poll_inner
behind_prefix size prefix inner [] = poll_inner prefix (read size inner)
behind_prefix size prefix inner (b ∷ bs) =
    ready (b ∷ bs) (record { prefix = prefix; inner = inner })

-- `size` is the room in the buffer.
poll_option : ℕ → Option Cursor → Stream → Polled
unfolding behind_prefix poll_inner
poll_option size none inner = poll_inner none (read size inner)
poll_option size (some c) inner = behind_prefix size (left size c) inner (taken size c)

pub poll_read : ℕ → PrefixedRead → Polled
poll_read size p = poll_option size p.prefix p.inner

-- What a reader does with the answer: no bytes are the end.
gather : (PrefixedRead → Option Text) → Polled → Option Text
gather continue poll_failed = none
gather continue (ready [] p) = some []
gather continue (ready (b ∷ bs) p) = Option.map (◌++◌ (b ∷ bs)) (continue p)

-- `AsyncReadExt::read_to_end`, with this room in each call: what a caller makes of the reader.
-- `none` is a failure of the stream, or too little fuel.
pub read_to_end : ℕ → ℕ → PrefixedRead → Option Text
unfolding gather
read_to_end zero size p = none
read_to_end (suc fuel) size p = gather (read_to_end fuel size) (poll_read size p)
