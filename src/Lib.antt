-- ===== src/Lib.antt =====
-- Verification of go-mrcp, a media resource control protocol stack in Go.
--
-- The program's parts and the files that model them (paths from the repository's root):
--   G711      mpf/codecs/g711. Alaw and Ulaw (with AlawTables, UlawTables and Table) have the functions
--             of alaw.go and ulaw.go on one sample and on buffers: encode_alaw_frame is EncodeAlawFrame,
--             ulaw_to_alaw is Ulaw2Alaw. Stream has the Decoder and the Encoder of g711.go with Read,
--             Write, Reset and the constructors. Samples, Buffers and StreamLaws prove.
--   Activity  mpf/mpf_activity_detector.go. process is ActivityDetectorProcess, detect the part of it
--             after the level is known, level_calculate is ActivityDetectorLevelCalculate. Level, Steps,
--             Traces and Silence prove, on the level, on one frame, on sequences of frames and on
--             silence that lasts.
--   Dtmf      mpf/mpf_dtmf_detector.go. create_ex, create, digit_get, add_digit, reset and
--             goertzel_sample are the functions of those names. Queue compares the buffer of digits with
--             a bounded queue; Energy is about the signal's energy and about creation. Generator has
--             mpf/mpf_dtmf_generator.go.
--   Apr       apr/stack.go, the dynamic array that the codec code keeps its descriptors in.
--   Codec     mpf/mpf_codec_descriptor.go in Descriptor (descriptors), Capabilities, Lists (building,
--             matching and intersecting lists) and Compare (the two comparisons), with parts of
--             mpf/mpf_rtp_pt.go and mpf/mpf_named_event.go; mpf/mpf_codec_manager.go in Manager, with the
--             codec of mpf/mpf_codec.go; mpf/mpf_codec_g711.go in G711, mpf/mpf_codec_linear.go in Linear, and
--             the virtual methods of a codec in Methods. Intersect, Intersect/Agreement, Compare/Laws,
--             Compare/Foreign, Manager/Laws, Manager/Load and Manager/Unknown, on a configured list, and
--             MediaPath, on a payload from the manager to the samples and back, prove.
--   Context   mpf/mpf_context.go: creation of a media context, terminations in its slots and the
--             associations between them; Reset has its destruction and the reset of the associations,
--             Factory the factory of contexts and its destruction. Counts has the invariant;
--             Associations, Slots, ResetLaws and FactoryLaws prove, and of sequences of calls
--             Slots/Soundness, Slots/Reach and Slots/Stale. Message has mpf/mpf_message.go.
--   Topology  mpf/mpf_context.go: topology_apply, topology_destroy and context_process, with the objects
--             that are made from the association matrix; Factory processes those of all contexts. Laws,
--             Applied and Slots prove.
--   Bridge    Stream has the methods of mpf/mpf_stream.go, Direction mpf/mpf_stream_descriptor.go,
--             Process the objects of mpf/mpf_object.go and the bridges of mpf/mpf_bridge.go in operation,
--             Create their creation, Decoder mpf/mpf_decoder.go. Laws, Balance and DecoderLaws prove.
--   Buffer    mpf/mpf_buffer.go: frame_read is BufferFrameRead, copy_chunk one round of its loop. Copy and
--             Bytes prove, on the buffer as a stream of bytes and on its lock.
--   AudioFile mpf/mpf_audio_file_stream.go, the methods of a stream on files. Laws proves.
--   Rtp       Receiver has mpf/mpf_rtp_defs.go and mpf/mpf_rtp_stat.go, Rtcp mpf/mpf_rtcp_packet.go with the
--             layouts in Packets, Media the descriptors of mpf/mpf_rtp_descriptor.go. Rtcp and MediaLaws
--             prove.
--   Engine    Factory has engine/mrcp_engine_factory.go, with an index into the list of engines for an
--             element of it; Channel has the virtual methods of a channel and of the state machine,
--             Respond the responses of engine/mrcp_engine_impl.go. FactoryLaws and ChannelLaws prove.
--   Message   Header has the header section of toolkit/apt_header_field.go and the properties of
--             mrcp/message/mrcp_message.go; Accessor has mrcp/message/header/mrcp_header_accessor.go and
--             the resource of mrcp/control/resource/mrcp_resource.go. Types has the enumerations of
--             mrcp/types.go and mrcp/message/constant.go and the start line, Fields the generic header
--             fields, Create the messages and the functions on them that change nothing. HeaderLaws proves.
--   Resources mrcp/resources: a module for each of the synthesizer, the recognizer, the recorder and the
--             verifier, with its header fields in its Fields. Properties proves.
--   Binaryx   utils/binaryx/binary.go. Laws proves what the codec and the reports use of it.
--   Prelude   shared names, Go's machine words, strings and strconv.Atoi.
--
-- How they interact: the codec lists and the manager keep their elements in the arrays of Apr; the
-- manager fills lists of Codec/Lists; the encoder and decoder of G711/Stream call the buffer
-- functions, and so do the codecs of Codec/G711. The topology reads the slots and the matrix of
-- Context and fills them with bridges of Bridge, which ask Codec whether the codecs of two streams
-- match. The media descriptors of Rtp are compared by the comparison of Codec/Compare. Codec/Linear and
-- Rtp/Rtcp convert words by Binaryx. The header fields of Resources stand behind the generic ones in the
-- header section of Message.
--
-- State is passed explicitly, and an operation returns the new state with its result. An error is a
-- constructor of a result type, a run-time panic is one of its own. A value of a machine type is its
-- bit pattern, a number below 2 ^ w, with its wrap-around written out. An int64 that only counts up
-- from 0 is a natural number.
--
-- Fuel: the two comparisons of codec lists run on fuel, one more than the length of the first list.
-- Each round moves past a descriptor of that list, so that is enough, and the theorems on them are
-- equations with a result that is not `stuck`. DecoderOpen calls itself without end, so no fuel is
-- enough for it, and that is what is stated of it. The loops of the media context count the slots, and
-- the loop that destroys a factory has a round for each entry of its list, which is enough. The
-- loop of the media buffer goes through its list of chunks.
--
-- Parameters for what is not code of the repository: the reader and the writer below a Decoder and an
-- Encoder, with the contracts of io.Reader and io.Writer as hypotheses; floating-point arithmetic; the
-- byte order functions of github.com/funny/binary; files with io.CopyN. The methods that a table of
-- function pointers holds, of streams, channels and codecs, are functions on a state of the world.
--
-- Not modelled: network input and output, threads and timers, event handlers and the events of a
-- termination, tracing, and functions that have no body yet or only
-- return nil: the message parser and generator, the resource factory, the media engine, the jitter
-- buffer, the mixer and the multiplier beyond their creation. Mutexes are modelled in the media buffer only; elsewhere each
-- operation has its object for itself.
pub mod Prelude
pub mod G711
pub mod Activity
pub mod Dtmf
pub mod Apr
pub mod Codec
pub mod Context
pub mod Buffer
pub mod Binaryx
pub mod Rtp
pub mod Bridge
pub mod Topology
pub mod Engine
pub mod AudioFile
pub mod Message
pub mod Resources
