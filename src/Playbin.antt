-- ===== src/Playbin.antt =====
-- gstreamer::Playbin: src/core/media/gstreamer/playbin.cpp. GStreamer and GIO are parameters: what
-- they answer is an argument, and what they are told is an output.
pub mod State
pub mod Uris
pub mod Pipeline
pub mod Position
pub mod Source
pub mod Change
pub mod Messages
pub mod Known
pub mod Streams
pub mod Seeking
pub mod Types
pub mod Sizes
pub mod Sockets
