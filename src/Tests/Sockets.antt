-- ===== src/Tests/Sockets.antt =====
-- A buffer and a socket for dwframe/socket_stream.cc.
use dwframe.Base.{ℕ, Bool, true, List}
use dwframe.ByteArray.Scatter.Spans.{ReadPieces, get_read_buffers-ReadPieces}
use dwframe.Tests.Buffers.{started, started-IsValid}

abbrev always : List ℕ → Bool
always s = true

get_read_buffers-ReadPieces_example : ReadPieces 4 started
get_read_buffers-ReadPieces_example = get_read_buffers-ReadPieces 4 started started-IsValid
