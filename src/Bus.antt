-- ===== src/Bus.antt =====
-- The event bus of server-go/bus: frames, rings, regions and clients, and above them module messages,
-- module calls and the loop that serves them.
pub mod Endian
pub mod Frame
pub mod Placement
pub mod Message
pub mod Ring
pub mod Region
pub mod Client
pub mod Caller
pub mod Runtime
pub mod RoundTrip
pub mod MessageTrip
pub mod Tests
