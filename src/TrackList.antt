-- ===== src/TrackList.antt =====
-- The track list: src/core/media/track_list_skeleton.cpp and track_list_implementation.cpp.
pub mod State
pub mod Cursor
pub mod Navigation
pub mod Editing
pub mod Invariant
pub mod Ids
pub mod Next
pub mod NextShuffled
pub mod PlayThrough
pub mod Previous
pub mod Adding
pub mod Current
pub mod AddTrack
pub mod AddTracks
pub mod Moving
pub mod Removing
pub mod MoveErrors
pub mod Requests
pub mod Permitted
pub mod RemoveRequest
pub mod GoTo
pub mod Playlist
