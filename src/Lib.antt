-- ===== src/Lib.antt =====
-- media-hub: the service that plays media for the applications of a device. Each application has a
-- session, that is a player with a track list; the service decides which sessions play, a player
-- drives a GStreamer pipeline through its engine and holds wakelocks, and each uri that a client
-- sends is checked against the client's apparmor profile.
--
-- The modules, and the code that they translate (paths from the repository's root):
--   TrackList: src/core/media/track_list_skeleton.cpp and track_list_implementation.cpp. State is
--   the record of both Private classes. An iterator is its index, and the sentinel of an empty
--   vector is `null`; a read through an iterator that stands on no element is `fault`. An
--   operation is a function from the state to an outcome: a value, an exception of
--   TrackList::Errors, or a fault. Cursor has current_iterator and the functions round it,
--   Navigation has next and previous, Editing the functions that change the list, and Requests the
--   handlers of the bus. Playlist has the abstract collection that the edits refine. rand() is a
--   stream of numbers in the state, random_shuffle an arbitrary order.
--   Apparmor: src/core/media/apparmor/ubuntu.cpp. Uri matches the regular expression of RFC 3986
--   by hand, Context has the profile names, Authenticator the chain of rules.
--   UriCheck: src/core/media/util/uri_check.h, with GLib's functions in the record Glib.
--   PlayerStore: src/core/media/hashed_keyed_player_store.cpp. Players are pointers, by number;
--   the order of the association list stands for that of the hash table.
--   Service: src/core/media/service_implementation.cpp (State, Pausing, Observers), the session
--   requests of service_skeleton.cpp (Sessions) and its exported MPRIS player (Exported).
--   Observers.step is the constructor's set of handlers, one event for each change that the
--   service observes. What the engine of a player makes of pause() and play() is the record
--   Controls; play() itself, which first pauses the other sessions and makes its player the
--   current one, is `play_session` of Pausing and `player_play` of Exported. Exported keeps every
--   connection to a player's properties that was ever made, since an assignment to a
--   core::Connection does not disconnect the slot before it. Sessions keeps the continuations that
--   wait for a client's profile in a list; `resolved` runs one of them, in any order.
--   Player: src/core/media/player_implementation.cpp and player_skeleton.cpp. In Wakelocks the
--   engine's state changes and the timers of four seconds are events, and the counts are 32-bit
--   integers that wrap. Glue puts the track list, the engine and the wakelocks together, and
--   Actions has the functions of the player on it; the signals that the track list sends are
--   handled after the operation that sends them, in their order. Requests has the handlers of the
--   bus.
--   Engine: src/core/media/gstreamer/engine.cpp, the error table, the commands and the tags of the
--   current uri; what the pipeline answers is an argument, the handler that the player connects to
--   the playbin's client_disconnected is one as well, and the calls and the engine's signals are a
--   list.
--   Playbin: src/core/media/gstreamer/playbin.cpp. State is the record of the class; what
--   GStreamer answers is an argument, and its calls are a list. Pipeline has the reset and the
--   state changes, Source the uri, Messages the bus handler, Streams what is missing of a stream,
--   Seeking the position, Sizes the video's dimensions, Sockets the video's consumer.
--   Metadata: include/core/media/track.h, src/core/media/metadata.cpp,
--   gstreamer/meta_data_extractor.h (Extractor), what MPRIS shows of the current track (Current),
--   and src/core/media/codec.h (Wire, RoundTrip). boost's lexical_cast is an argument.
--   Power: src/core/media/power/state_controller.cpp. The calls of the daemons that are on the way
--   and the one timer of the display's lock are part of the state, and their answers are events,
--   in any order.
--   Audio: src/core/media/audio/pulse_audio_output_observer.cpp. Callbacks has what PulseAudio's
--   answers do, and `run` takes them in any order; a pattern is its match, a function on names,
--   and an index of -1 stands by its 32 bits. The service takes the external state as an event.
--   Media: the enumerations of include/core/media/player.h and src/core/media/engine.h.
--   Prelude: lists and texts measured by native numbers, maps, case splits, integers.
--   Tests: runs at concrete inputs.
--
-- How the parts meet: the track list's requests call Apparmor.Authenticator.authenticate and
-- UriCheck.set before Editing's functions; the service's handlers work on PlayerStore and on the
-- objects behind its pointers; the sessions' requests add players to the same store.
-- TrackList.Invariant.IsValid is the well-formed track list: the cursor is null or can be read,
-- the ids are distinct and were given out by the counter, and while shuffle is on the shuffled
-- tracks are the tracks in another order.
--
-- Bounds: track_counter is a size_t and wraps at 2 ^ 64; the theorems on adding ask for room below
-- it. session_counter wraps at 2 ^ 32, and the theorems on new sessions ask that it has not come
-- to its last value. The wakelock counts wrap at 2 ^ 31, and the run's length is bounded by that.
-- Printing a number runs on fuel, one more than the number: each round takes one digit off, and a
-- number has fewer digits than that.
--
-- A seek is given in microseconds and its product by 1000 is an int64_t, undefined beyond; an
-- operation that meets undefined behaviour has a fault, or none, as its outcome.
--
-- Not modelled: the bus itself and the client stubs, which hold no logic; GStreamer, GLib, boost
-- and the daemons, which are arguments; the observers' own threads, the video sinks, logging and
-- start-up. The metadata that the extractor adds later to the cache is left out of the track list.
pub mod Prelude
pub mod Media
pub mod TrackList
pub mod Apparmor
pub mod PlayerStore
pub mod Playbin
pub mod UriCheck
pub mod Metadata
pub mod Power
pub mod Service
pub mod Engine
pub mod Audio
pub mod Player
mod Tests
