-- ===== src/Lib.antt =====
-- Verification of the EZVIZ HP7 integration (custom_components/ezviz_hp7), which brings a video doorbell
-- into Home Assistant.
--
-- The program. config_flow.py makes an entry from an account and a device; __init__.py sets it up: it
-- logs in through api.py, which wraps the cloud client, asks the cloud in coordinator.py for the alarms
-- and the state of the device, and starts the relay of tcp_relay.py. The relay opens a LAN session with
-- cpd7/lan_client.py when a viewer comes or an event makes one likely, decrypts what the doorbell sends
-- with cpd7/decoder.py, keeps the last pictures in a buffer and hands them to the viewer. The key of the
-- LAN session comes from the cloud through the packets of pylocalapi/cas.py. binary_sensor.py shows the
-- data of the coordinator.
--
-- The files, and what they model.
--   Base: Boolean tests, lists over the native numbers, byte strings, searches in them, texts,
--     dictionaries, and rules for what every branch keeps.
--   Socket: the loops that read a number of bytes, of cas.py and lan_client.py, over a stream that the
--     network cuts into pieces.
--   Cpd7.Crypto: parse_ecdh_packet, transform_nonce and make_nonce_12b of cpd7/crypto.py.
--   Cpd7.Decoder: StreamDecoder of cpd7/decoder.py, the methods feed, take, _consume_one_chunk,
--     _handle_chunk, _derive_keys, _decrypt_data_chunk, _find_keyframe and _absorb_plain;
--     Cpd7.Decoder.Camera: the doorbell that sends such a stream, which is a reference and no code of
--     the repository.
--   Cpd7.Lan: _build_packet, _parse_response, _recv_response, the XML texts and _send_cmd of
--     cpd7/lan_client.py; Cpd7.Lan.Start: start, read_chunk and close of Cpd7LanClient.
--   Cas: the header, the packets and the responses of pylocalapi/cas.py; Cas.Permanent:
--     query_permanent_password; Cas.Sign: _extract_sign_from_jwt and cas_get_encryption.
--   Relay.Buffer: the ring buffer of tcp_relay.py; Relay.State: the state; Relay.Session:
--     async_prewarm, _handle_client, the timer and the teardown, cut where the code waits or holds its
--     lock, so that an order of events is a list, with the counters of stats.py that the relay moves;
--     Relay.Pump: the loop of _pump_upstream with the decoder; Relay.Server: async_start and
--     async_stop; Relay.Session.Notify: the calls of the state listener; Relay.Session.Viewer: what a
--     viewer is sent; Relay.Watchdog: the watchdog of the pump.
--   Polling.Coordinator: a tick of coordinator.py; Polling.Alarm: the sensors of binary_sensor.py;
--     Polling.Alarms: the tables of its sensors; Polling.Values: the values in the dictionaries, with
--     truth, equality and _to_bool.
--   Cloud.Api: ensure_client, the login, fetch_lan_aes_key and invalidate_aes_cache of api.py, and
--     bare_serial of helpers.py; Cloud.Api.Related: get_related_device; Cloud.Api.Unlock: the unlocks;
--     Cloud.Status: the static data and the last alarm; Cloud.Devices: detect_capabilities,
--     list_devices and close; Cloud.FeatureCode: the code that the entries share; Cloud.Eucas:
--     EzvizCAS of pylocalapi/cas.py, and a fetch of a key over its packets; Cloud.P2p: the p2p
--     request.
--   Entities.Camera, Entities.Mjpeg, Entities.Buttons, Entities.Select, Entities.Sensor: camera.py,
--     mjpeg.py, button.py, select.py and sensor.py; Entities.Identity: the unique ids, and
--     get_device_info of helpers.py. A press is followed as far as the sensors, and a session of
--     motion JPEG as far as the end of its process.
--   Entry.Flow: the steps of config_flow.py, with the options flow in Entry.Flow.Options; Entry.Setup:
--     the feature code and the prewarm on events of __init__.py; Entry.Lifecycle: the whole set-up and
--     unloading; Entry.Warmup: the timer that keeps the AES key warm.
--
-- State is a record and a method a function of it. An exception is none, or a constructor of the result.
-- What the cloud, the network and the clock answer is an argument, a list of pieces or of events. The
-- libraries for ECDH, AES, ChaCha20 and MD5 are the records Ciphers, Control and Hashes; the theorems
-- that need that decryption undoes encryption, or that a digest has 32 characters, say so. Times are
-- whole seconds where the code has floating point, which the code only adds and compares.
--
-- Bounds. The loop of feed runs on fuel, one more than the length of the buffer: a round that goes on
-- takes a byte off it. The reading loops run on as many rounds as bytes are wanted: a round that goes on
-- reads one at least. A number that a header packs is below 2 ^ 32, or the packing raises.
--
-- Not modelled: TLS, how the host registers entities, log texts and log_summary of stats.py; that the
-- interpreter collects what the code drops, and closes the sockets in it, so that an open socket is one
-- for which the code has not called close; and that the camera writes its state on each tick of the
-- coordinator too: only what it shows between two ticks is followed.
pub mod Base
pub mod Socket
pub mod Cpd7
pub mod Cas
pub mod Relay
pub mod Polling
pub mod Cloud
pub mod Entities
pub mod Entry
