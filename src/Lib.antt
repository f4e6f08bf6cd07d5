-- ===== src/Lib.antt =====
-- RevLink sidecar: a small box that connects to a Cobb AccessPort over USB, copies its files, and on
-- the owner's request selects, uploads or deletes maps. The firmware is C; its decisions are in
-- components without I/O, under firmware/components, and those are modelled here.
--
--   Protocol     accessport_protocol/revlink_accessport_protocol.c, what goes over the wire. Writer is the
--                byte writer; Record the builders; Parse the validation and the parser; Chunk the chunks of
--                file contents. Frame and Payloads give what the builders write in closed form; RoundTrip,
--                Requests, Accepted, ChunkLaws and ChunkAccepted are about the two directions.
--                Target says which files may be deleted and uploaded, and TargetLaws what
--                it lets through. Decoder is the decoder of a download, with the caller's sink as an argument, and
--                DecoderFed, Download and the files that they use are about it. Ack has the short frames, and
--                Listing and Identity the payloads of a directory listing and of the device's identity.
--   StagedMap    revlink_staged_map/revlink_staged_map.c, the record of a map that waits to be written:
--                Codec its 540 bytes, Decoded their layout, Apply the decision to write it.
--   Device       revlink_core/revlink_device_service.c, the state machine of the attached device.
--   Safety       revlink_core/revlink_safety_policy.c, what is permitted.
--   Sync         revlink_sync: Coordinator is revlink_sync_coordinator.c, the one operation at a time. Manifest is
--                revlink_sync_manifest.c, the catalogue of the files that were read, and History is
--                revlink_sync_history.c, their versions; in each, File is the text file, Sound the well-formed
--                states, RoundTrip and Reading what is read of a file. Manifest.Catalogue and Manifest.Run compare
--                the manifest with an abstract map. Text has the numbers, digests, fields and lines of the text
--                files, which each source spells out, Loop the loop over the lines, and Loop.Lines the lines
--                apart from the loop.
--   Application  revlink_application/revlink_application.c, which joins Device, Safety and Sync: an event of
--                the device moves its state machine, and the application asks the coordinator to start.
--   Network      revlink_network/revlink_network_coordinator.c, hotspot or home network.
--   Recovery     revlink_storage_recovery/revlink_storage_recovery.c, consent to a format of the card.
--   Power        revlink_power/revlink_power_button.c, the debounced button.
--   Update       revlink_update/revlink_update_health.c, whether a new firmware stays.
--   Clock        revlink_time/revlink_time.c, the trusted time. Torn has the three stores of an observation
--                one by one, as a reader on the other core can see them.
--   UsbControl   revlink_usb_control/revlink_usb_control.c, the switches of the USB power and data lines.
--   Crc, Base    the CRC-32 that two components spell out, and what all of them share.
--
-- A struct is a record, an enum a data type, and a function that changes a struct returns the new one. A
-- status is returned beside the results, and an output that the code leaves alone is unchanged or `none`. An
-- array is a list of numbers with its length; a pointer that may be NULL is an `Option`, where NULL is more
-- than a broken call. Numbers are natural; where the code wraps or saturates, the model does so in writing,
-- and `size_t` is the 32-bit one of the target. Callbacks are arguments of the functions that call them, and
-- a sequence of calls is a list of commands or events. Loops run over lists or over a number of rounds; the
-- loop of the decoder runs on one round more than there are bytes, and the loop over the lines of a file on
-- the number of its bytes; both are proved to be enough.
--
-- Not modelled: the names of enumerators, for logs; the parts that only call ESP-IDF (USB host, radio, HTTP,
-- SD card, display); the annotations of the sync, the status model, the identity, the credentials, the
-- catalogue, the captive DNS and the command line; of the protocol the checksum that is computed in parts. Concurrency is
-- modelled in Clock only.
pub mod Base
pub mod Crc
pub mod StagedMap
pub mod Device
pub mod Sync
pub mod Safety
pub mod Application
pub mod Network
pub mod Recovery
pub mod Power
pub mod Update
pub mod Clock
pub mod UsbControl
pub mod Protocol
