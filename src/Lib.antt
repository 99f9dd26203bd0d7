-- ===== src/Lib.antt =====
-- chroagh: the programs that connect a chroot to Chromium OS.
--
-- The programs: croutonwebsocket (src/websocket.c) and the framebuffer server (src/fbserver.c)
-- talk to a browser extension over a WebSocket, whose server side is src/websocket.h, included by
-- both; the native client of the extension (host-ext/nacl_src/kiwi.cc) shows the frames of the
-- framebuffer server and sends it input; croutonwmtools (src/wmtools.c) lists and raises windows; croutonfreon (src/freon.c) is
-- preloaded into Xorg and arbitrates the display.
--
-- Files:
-- - Base: shared names. Base.Tests has the Boolean tests, Base.Lists and Base.Indexing lists over
--   the native numbers, Base.Bits the bitwise operations, Base.Routine the outcomes of a C
--   function: done, exited, aborted, fault (undefined behaviour: a memory access out of bounds)
--   and out_of_fuel, with the monad of state and outcome. Base.Text: the bytes of literals.
-- - Io: block_read and block_write of src/websocket.h as loops over read and write. The kernel is
--   an argument: the segments in which bytes arrive, and what each write takes. Io.Read and
--   Io.Write have what the loops do. The fuel is the size plus one: each round moves a byte.
-- - WebSocket.State: the global client_fd and the descriptors, with the trace of effects.
--   WebSocket.State.Channels: block_read and block_write on that state.
-- - WebSocket.Constants: the constants. WebSocket.Frame: frames as RFC 6455 describes them.
-- - WebSocket.Send: socket_client_write_frame and socket_client_close; Encoding and Closing prove
--   what they send.
-- - WebSocket.Mask: unmasking in 32-bit words and its bytewise description.
-- - WebSocket.Receive: socket_client_read_frame_header and socket_client_read_frame_data; Length,
--   Decoding and Data prove what they read, Control what is done with control packets.
-- - WebSocket.Message: socket_client_read_frame, on fuel, one for each frame read, and
--   socket_client_sendversion; Round and Reassembly prove that fragments are joined, Version that
--   the exchange of versions succeeds.
-- - WebSocket.Header: socket_server_error, and the lines that socket_server_read_header looks for.
-- - WebSocket.Handshake: the loops of socket_server_read_header, with the buffer as the
--   line so far and the bytes after it. One fuel bounds the lines and another the bytes of a line:
--   a line is at most 4096 bytes, as the buffer, and a header with n fields has n + 2 lines. Key
--   and Settled: what holds at every end. Lines and Split: lines are read whole; Meaning: what the
--   fields say; Accepting: the whole header; Complete: one with all that is needed. Underrun: a
--   line feed first.
-- - WebSocket.Accept: socket_server_accept and socket_server_init, over what the system calls and
--   the runs of popen2 return; Switching is about when the client changes.
-- - Popen: popen2 of src/websocket.h, with what poll, write, read and waitpid return as an argument.
--   Turns has what holds between two polls, Closing what popen2 does in all.
-- - Relay: src/websocket.c. Relay.State: its globals on top of those of src/websocket.h. Relay.Pipe:
--   opening, writing and closing the pipes; Balanced counts the descriptors for answers. Relay.Unrequested: socket_client_handle_unrequested and
--   socket_client_read; Replies proves what comes of commands. Relay.Request: pipein_read, each of
--   its loops on fuel for the reads and frames; Closed proves how the pipe is left. Relay.Setup:
--   checkfifo and pipe_init on what the paths name. Relay.Loop: main from socket_server_init on,
--   over the returns of ppoll; Ending is about how it ends.
-- - Wm.Raise: raiseWindow of src/wmtools.c, with the X server's answers as an argument and the
--   requests as the result; Order and Raising prove the new stacking order.
-- - Wm.Listing: listMapped of src/wmtools.c, with the printed text as a list; Order relates it to
--   the stacking order.
-- - FbServer.Keys: kb_add, kb_remove and kb_release_all of src/fbserver.c on the list of the valid
--   entries; Set counts entries, Removal is about kb_remove, History about sequences of calls.
-- - FbServer.Cache: close_mmap and find_shm of src/fbserver.c, with the helper, the files and the
--   memory as an argument; Balance counts descriptors, Lookup is about what find_shm returns.
-- - FbServer.Packets: check_size and the cases of main of src/fbserver.c for keys, clicks, moves and
--   the release of all keys; Decoding, Typing and Refusing prove what packets do. FbServer.Replies:
--   write_init and change_resolution; Sending has the frame of write_init. FbServer.Screen:
--   write_image, write_cursor and the inner loop of main, with a record of what the X server and
--   the system give for each packet; Ending is about what a client leaves, Showing about the ends of
--   write_image.
-- - Freon: set_display_lock and the wrappers ioctl, open (open_path) and close of src/freon.c. The
--   system is an argument, a function from the calls so far; Lock is about the display lock,
--   Ownership, Opened and Session about what the wrappers tell Chromium OS.
-- - Kiwi: host-ext/nacl_src. Kiwi.Keycodes: keycode_converter.h, with its table; Kiwi.Keysyms:
--   KeyCodeToKeySym. Kiwi.State: the members of the instance of kiwi.cc, and its calls as effects.
--   Kiwi.Sending: SocketSend, RequestScreen, SetTargetFPS and the functions for keys and clicks.
--   Kiwi.Input: HandleInputEvent. Kiwi.Packets and Kiwi.Search prove what input sends: Session one
--   event, Shared a session with the keys of FbServer. Kiwi.Painting: OnFlush and Paint.
--   Kiwi.Cursors: the pixels of a cursor; a scale is found in at most 11 rounds, as a size is below
--   2 ^ 16. Kiwi.Socket: SocketConnect to OnSocketReceiveCompletion; Replies counts closes and
--   Attempts connections, Shrinking is about cursors, Agreement about the packets of FbServer, Flow
--   about the invariant of Kiwi.Packets. Kiwi.Messages: HandleMessage and InitContext; Keeping is
--   about the same invariant.
-- - Examples: tests, and the theorems at concrete inputs.
--
-- Memory is a list of bytes from a pointer on; an access beyond it is fault. Sizes of payloads are
-- taken to be below 2 ^ 31, as an int holds them. Logging is left out.
--
-- Not modelled: the options and signals of main of src/websocket.c; the set-up of the X server, the
-- options and the outer loop of main of src/fbserver.c; preload_init of src/freon.c; src/cursor.c,
-- src/xi2event.c, src/vtmonitor.c and main of src/wmtools.c, which are left for later; of kiwi.cc
-- the logging, the floating-point arithmetic, which is an argument, and numbers of messages below
-- -1; the JavaScript of the browser extension (host-ext/crouton) and the shell scripts (installer,
-- host-bin, chroot-bin, targets, test).
pub mod Base
pub mod Io
pub mod WebSocket
pub mod Popen
pub mod Relay
pub mod Wm
pub mod FbServer
pub mod Freon
pub mod Examples
pub mod Kiwi
