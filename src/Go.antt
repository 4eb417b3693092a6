-- ===== src/Go.antt =====
-- What the program uses of Go: results and panics, byte strings, maps, the big-endian reads and
-- writes of encoding/binary over bytes.Buffer and bytes.Reader, and bufio.Scanner.
pub mod Result
pub mod Text
pub mod Map
pub mod FrameMap
pub mod Binary
pub mod Format
pub mod Scanner
