-- ===== src/Lib.antt =====
-- Verification of vdr-plugin-mcli, the VDR plugin that receives DVB from NetCeivers over the network.
--
-- The program. A NetCeiver announces its tuners and CAMs. cPluginMcli (mcli.c) keeps them in two pools
-- that its devices share, starts the parts of libmcli that receive, and follows the announcements in a
-- thread. A device (cMcliDevice, device.c) takes a tuner and a CAM from the pools for the channel that
-- VDR asks for, has the receiver of libmcli tuned, and puts the TS packets that come into a ring buffer
-- of VDR, from which VDR takes them. It also hands the TS packets of section PIDs to cMcliFilters
-- (filter.c), which stores them in a cMyPacketBuffer (packetbuffer.c); a thread takes them out, cuts
-- their payload into chunks of sections, and each cMcliFilter that matches puts its sections together
-- and writes them to a socket. The CAM menu (cam_menu.c) lists the CAMs and saves their settings.
--
-- The model.
--   PacketBuffer   packetbuffer.c, packetbuffer.h: the ring of descriptors over the byte buffer. Pointers
--                  into the arrays are indices; `live` is the list of the packets that wait, the
--                  abstract view of the ring. Refines.Calls has the calls of a producer and a consumer,
--                  and those of the queue that the ring implements, as labelled steps.
--   Filter         filter.c, filter.h: PidList is cMcliPidList, Section is cMcliFilter, Demux the cutting
--                  of a packet in cMcliFilters::Action, Filters the other methods of cMcliFilters. The
--                  lists of VDR are lists. Filters.Tracked has the calls as steps of one machine.
--   Mcli           mcli.c, mcli.h: Cams and Tuners are the pools, Scan is the round of
--                  cPluginMcli::Action over the NetCeivers, Start is PreInitMcli and PostExitMcli, Limits
--                  is SetupParse and the service that sets the limits, Args is ProcessArgs, Service is
--                  the service GetTunerInfo and the SVDRP command GETTC, with its text in Service.Conf.
--   Device         device.c, device.h, and the functions of mcli.c over all devices: Source is
--                  TranslateTypePos and the parameters of the frontend, Provide the questions of VDR and
--                  CheckCAM, Tune is SetEnable, SetTempDisable and CAMSteal, SetChannel is
--                  SetChannelDevice, Pids is SetPid and the section filters, Stream is HandleTsData and
--                  GetTSPacket, Answers is what a device tells of itself, Devices is UpdateDevices,
--                  reconfigure, Stop and Ready, Action is a round of the thread of cPluginMcli, which
--                  calls Mcli.Scan and UpdateDevices, Plugin is the rest of cPluginMcli: constructor,
--                  Initialize, Stop, MainThreadHook, REINIT. A World has the pools and the devices;
--                  Ownership counts who holds what, Ownership.Steps has the calls at the devices as
--                  steps of one machine, and Plugin.Runs those of the whole plugin.
--   CamMenu        cam_menu.c, cam_menu.h: cCamMtd and the thread cNCUpdate, which writes the settings of
--                  the CAMs into the configuration files of the NetCeivers. Patch is PatchCamFlags on the
--                  components of the file; Find is CamFind, the list of CAMs, and the entry of a PIN; Menu is
--                  cCamMenu with Receive and OpenCamMenu, Keys its ProcessKey, and Lines the cutting of
--                  texts by strtok_r.
--   Prelude        names of the libraries, tests on numbers, lists, the search for an entry, texts.
-- A function of the model has the name of the method in small letters (find_space for FindSpace), takes
-- the object as its last argument and returns it changed. Each part has a module Tests with runs on
-- concrete objects.
--
-- Numbers. Sizes, indices and counts are natural numbers; `-1` and NULL are `none`. The clock differences
-- of packetbuffer.c wrap at 2 ^ 64, and the index in front of slot 0 at 2 ^ 32, as in the code. Numbers
-- of tuner types, TS_SIZE, and the position that means none belong to other headers and are arguments.
--
-- Loops. A call that polls takes the rounds of its loop: the readings of the clock and what the other
-- thread does meanwhile. A result `none` means that it waits still. The loop over the sections of a
-- payload and that over the packets of PutTS run on fuel, the number of bytes: each round takes one at
-- least. The constructor's loop has the 16 rounds of the code. FrequencyToHz has three rounds, which are
-- enough for every number. The loop of cNCUpdate runs on fuel, four rounds for each item that is
-- modified and one more; that over the items at a digit key on twice the number of items and of the
-- characters of a text, and one more.
--
-- Configuration. device.c is modelled for VDR 2.4.4 and later, with USE_VDR_PACKET_BUFFER, and without
-- TEMP_DISABLE_DEVICE, ENABLE_DEVICE_PRIORITY, GET_TS_PACKETS and DEVICE_ATTRIBUTES, as the sources set
-- them; only GetAttribute for numbers is that of DEVICE_ATTRIBUTES. The ring buffer of VDR is a
-- parameter with the laws of its methods.
--
-- Left out: locks (a call is one step), logging and debug output, the memory management of VDR, and all
-- display but the items of the CAM menu. What sockets, libmcli, libxml, VDR and /proc answer, and what
-- atoi and the format %d make of a number, are arguments.
pub mod Prelude
pub mod PacketBuffer
pub mod Filter
pub mod Mcli
pub mod Device
pub mod CamMenu
