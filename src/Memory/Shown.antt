-- ===== src/Memory/Shown.antt =====
-- What `socket_memory` of src/http/socket_wrap.cpp shows after a merge, as the interface `IsShown`.
use hcpp.Common.{◌+◌, ◌^◌, ◌<◌, arith}
use hcpp.Buffer
use hcpp.Buffer.Shown.{remove_some-shown, read_index-merge_some, read_index-remove_some}
use hcpp.Memory.{IsShown}
use hcpp.Memory.Connection.{Socket, connection, stream}

module _ (net : Socket) where
  unfoldable pub shown : IsShown (connection net) (stream net)
  unfolding stream
  shown = record {
    HasRoom = λ n c. c.buffer.read_index + n < 2 ^ 31;
    room-addressable = λ n c h. omega arith;
    room-remove = λ n k c h. omega (
      arith,
      read_index-remove_some (Buffer.merge_some c.buffer).1 n,
      read_index-merge_some c.buffer,
    );
    room-merge = λ n c h. omega (arith, read_index-merge_some c.buffer);
    shows = λ n k c v h r. remove_some-shown c.buffer n v h (omega arith);
  }
