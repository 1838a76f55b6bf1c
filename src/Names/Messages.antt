-- ===== src/Names/Messages.antt =====
-- MatterNames.cpp: the names of the messages of each protocol.
use matter_dissector.Prelude.{ℕ, List, [], ◌∷◌}
use matter_dissector.Tree.{String}

abbrev pub common_messages : List (ℕ × String)
common_messages =
    (64, "StatusReport")
    ∷ (16, "StandaloneAck")
    ∷ (0, "MsgCounterSyncReq")
    ∷ (1, "MsgCounterSyncRsp")
    ∷ (32, "PBKDFParamRequest")
    ∷ (33, "PBKDFParamResponse")
    ∷ (34, "PASE_Pake1")
    ∷ (35, "PASE_Pake2")
    ∷ (36, "PASE_Pake3")
    ∷ (47, "PASE_Spake2pError")
    ∷ (48, "CASE_Sigma1")
    ∷ (49, "CASE_Sigma2")
    ∷ (50, "CASE_Sigma3")
    ∷ (51, "CASE_Sigma2_Resume")
    ∷ (80, "ICD_CheckInMessage")
    ∷ []

abbrev pub interaction_model_messages : List (ℕ × String)
interaction_model_messages =
    (1, "StatusResponse")
    ∷ (2, "ReadRequest")
    ∷ (3, "SubscribeRequest")
    ∷ (4, "SubscribeResponse")
    ∷ (5, "ReportData")
    ∷ (6, "WriteRequest")
    ∷ (7, "WriteResponse")
    ∷ (8, "InvokeCommandRequest")
    ∷ (9, "InvokeCommandResponse")
    ∷ (10, "TimedRequest")
    ∷ []

abbrev pub echo_messages : List (ℕ × String)
echo_messages = (1, "EchoRequest") ∷ (2, "EchoResponse") ∷ []

abbrev pub network_provisioning_messages : List (ℕ × String)
network_provisioning_messages =
    (0, "IdentificationDeclaration")
    ∷ (1, "ScanNetworks")
    ∷ (2, "NetworkScanComplete")
    ∷ (3, "AddNetwork")
    ∷ (4, "AddNetworkComplete")
    ∷ (5, "UpdateNetwork")
    ∷ (6, "RemoveNetwork")
    ∷ (7, "EnableNetwork")
    ∷ (8, "DisableNetwork")
    ∷ (9, "TestConnectivity")
    ∷ (10, "SetRendezvousMode")
    ∷ (11, "GetNetworks")
    ∷ (12, "GetNetworksComplete")
    ∷ (13, "GetLastResult")
    ∷ []

abbrev pub security_messages : List (ℕ × String)
security_messages =
    (1, "PASEInitiatorStep1")
    ∷ (2, "PASEResponderStep1")
    ∷ (3, "PASEResponderStep2")
    ∷ (4, "PASEInitiatorStep2")
    ∷ (5, "PASEResponderKeyConfirm")
    ∷ (6, "PASEReconfigure")
    ∷ (10, "CASEBeginSessionRequest")
    ∷ (11, "CASEBeginSessionResponse")
    ∷ (12, "CASEInitiatorKeyConfirm")
    ∷ (13, "CASEReconfigure")
    ∷ (100, "EndSession")
    ∷ (101, "KeyError")
    ∷ (102, "MessageCounterSyncResponse")
    ∷ []

abbrev pub fabric_provisioning_messages : List (ℕ × String)
fabric_provisioning_messages =
    (1, "CreateFabric")
    ∷ (2, "LeaveFabric")
    ∷ (3, "GetFabricConfig")
    ∷ (4, "GetFabricConfigComplete")
    ∷ (5, "JoinExistingFabric")
    ∷ []

abbrev pub device_control_messages : List (ℕ × String)
device_control_messages =
    (1, "ResetConfig")
    ∷ (2, "ArmFailSafe")
    ∷ (3, "DisarmFailSafe")
    ∷ (4, "EnableConnectionMonitor")
    ∷ (5, "DisableConnectionMonitor")
    ∷ (6, "RemotePassiveRendezvous")
    ∷ (7, "RemoteConnectionComplete")
    ∷ (8, "StartSystemTest")
    ∷ (9, "StopSystemTest")
    ∷ []

abbrev pub time_messages : List (ℕ × String)
time_messages =
    (0, "TimeSyncTimeChangeNotification") ∷ (1, "TimeSyncRequest") ∷ (2, "TimeSyncResponse") ∷ []

abbrev pub swu_messages : List (ℕ × String)
swu_messages =
    (0, "ImageAnnounce")
    ∷ (1, "ImageQuery")
    ∷ (2, "ImageQueryResponse")
    ∷ (3, "DownloadNotify")
    ∷ (4, "NotifyRepsponse")
    ∷ (5, "UpdateNotify")
    ∷ (6, "ImageQueryStatus")
    ∷ []

abbrev pub bdx_messages : List (ℕ × String)
bdx_messages =
    (1, "SendInit")
    ∷ (2, "SendAccept")
    ∷ (3, "SendReject")
    ∷ (4, "ReceiveInit")
    ∷ (5, "ReceiveAccept")
    ∷ (6, "ReceiveReject")
    ∷ (7, "BlockQuery")
    ∷ (8, "BlockSend")
    ∷ (9, "BlockEOF")
    ∷ (10, "BlockAck")
    ∷ (11, "BlockEOFAck")
    ∷ (15, "TransferError")
    ∷ (16, "BlockQuery")
    ∷ (17, "Block")
    ∷ (18, "BlockEOF")
    ∷ (19, "BlockAck")
    ∷ (20, "BlockAckEOF")
    ∷ (21, "BlockQueryWithSkip")
    ∷ []

abbrev pub device_description_messages : List (ℕ × String)
device_description_messages = (1, "IdentifyRequest") ∷ (2, "IdentifyResponse") ∷ []

abbrev pub service_provisioning_messages : List (ℕ × String)
service_provisioning_messages =
    (1, "RegisterServicePairAccount")
    ∷ (2, "UpdateService")
    ∷ (3, "UnregisterService")
    ∷ (101, "UnpairDeviceFromAccount")
    ∷ (102, "PairDeviceToAccount")
    ∷ []
